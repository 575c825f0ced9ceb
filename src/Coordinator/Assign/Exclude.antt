-- ===== src/Coordinator/Assign/Exclude.antt =====
-- What a client can have excluded: `excludedExits` of cmd/coordinator.
use bacchus.Shared.{
  ◌≤◌, ◌≢◌, List, [], ◌∷◌, ◌≡◌, ◌⊎◌, inl, inr, refl, Option, none, some, String, In, length, take,
  length-take, arith, str_eq, str_eq_iff, Bool-cases, Option-cases,
}
use bacchus.Coordinator.Assign.{Session, find_session, excluded_exit, excluded_loop, excluded_exits}

-- A session of this client, one of those named, that was given this exit.
abbrev pub IsOwnExit : List Session → String → List String → String → Type 0
IsOwnExit sessions src sids id =
    (s : Session) × In s sessions
    × In s.sid sids
    × (s.client ≡ some src)
    × (s.exit_id ≡ id)
    × (id ≢ "")

find_session-In :
    (sid : String) (sessions : List Session) (s : Session)
    → find_session sid sessions ≡ some s
    → In s sessions × (s.sid ≡ sid)
unfolding find_session
find_session-In sid [] s h = ground arith
find_session-In sid (x ∷ xs) s h = elim (Bool-cases (str_eq x.sid sid)) [
  | inl here ↦ (inl (ground arith), ground (arith, str_eq_iff x.sid sid))
  | inr there ↦ let (m, e) = find_session-In sid xs s (ground arith) in (inr m, e)
]

excluded_exit_own :
    (src : String) (found : Option Session) (id : String)
    → excluded_exit src found ≡ some id
    → (s : Session) × (found ≡ some s) × (s.client ≡ some src) × (s.exit_id ≡ id) × (id ≢ "")
excluded_exit_own src none id h = ground arith
excluded_exit_own src (some s) id h = elim (Bool-cases (str_eq s.exit_id "")) [
  | inl no_exit ↦ ground arith
  | inr exit ↦ elim (Option-cases s.client) [
    | inl no_client ↦ ground arith
    | inr (c, client) ↦ elim (Bool-cases (str_eq c src)) [
      | inr differ ↦ ground arith
      | inl same ↦
          let e : s.exit_id ≡ id = ground arith in
          (
            s,
            refl,
            ground (arith, str_eq_iff c src),
            e,
            λ empty. ground (arith, str_eq_iff s.exit_id ""),
          )
    ]
  ]
]

excluded_loop_own :
    (sessions : List Session) (src : String) (sids : List String) (id : String)
    → In id (excluded_loop sessions src sids)
    → IsOwnExit sessions src sids id
unfolding excluded_loop
excluded_loop_own sessions src [] id m = absurd m
excluded_loop_own sessions src (sid ∷ sids) id m =
    elim (Option-cases (excluded_exit src (find_session sid sessions))) [
      | inl skipped ↦
          let (s, i, n, c, e, f) = excluded_loop_own sessions src sids id (ground arith) in
          (s, i, inr n, c, e, f)
      | inr (x, named) ↦ elim (split x named) [
        | inr later ↦
            let (s, i, n, c, e, f) = excluded_loop_own sessions src sids id later in
            (s, i, inr n, c, e, f)
        | inl here ↦
            let (s, found, c, e, f) =
              excluded_exit_own src (find_session sid sessions) id (ground arith) in
            let (i, n) = find_session-In sid sessions s found in (s, i, inl n, c, e, f)
      ]
    ]
  where
    split :
        (x : String)
        → excluded_exit src (find_session sid sessions) ≡ some x
        → (id ≡ x) ⊎ In id (excluded_loop sessions src sids)
    split x named = ground arith

length-excluded_loop :
    (sessions : List Session) (src : String) (sids : List String)
    → length (excluded_loop sessions src sids) ≤ length sids
unfolding excluded_loop
length-excluded_loop sessions src [] = omega arith
length-excluded_loop sessions src (sid ∷ sids) =
    elim (Option-cases (excluded_exit src (find_session sid sessions))) [
      | inl skipped ↦ ground (arith, length-excluded_loop sessions src sids)
      | inr (x, named) ↦ ground (arith, length-excluded_loop sessions src sids)
    ]

-- A client cannot exclude an exit of its choice: every exit that a connect excludes is the exit of a
-- session of that client's own address, named among the first four sessions of the connect; and
-- there are at most four.
pub excluded_exits_own :
    (sessions : List Session) (src : String) (sids : List String)
    → ((id : String)
        → In id (excluded_exits sessions (some src) sids)
        → IsOwnExit sessions src (take 4 sids) id)
      × (length (excluded_exits sessions (some src) sids) ≤ 4)
unfolding excluded_exits
excluded_exits_own sessions src sids = (
  λ id m. excluded_loop_own sessions src (take 4 sids) id m,
  omega (arith, length-excluded_loop sessions src (take 4 sids), length-take 4 sids),
)
