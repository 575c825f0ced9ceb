-- ===== src/Netd/Serve/Token.antt =====
-- Who gets past the front door of the helper.
use bacchus.Shared.{
  ℕ, ◌≡◌, ◌≢◌, ◌↔◌, ◌⊎◌, inl, inr, refl, [], ◌∷◌, true, false, Option, none, some, Bytes, length,
  ◌==◌, arith, Bool-cases, ok, err,
}
use bacchus.Ranges.{Addr}
use bacchus.Netd.{
  Kernel, Session, Request, Verb, Reply, failed, busy, no_session, bad_token, compare_loop,
  subtle_compare,
}
use bacchus.Netd.Parse.{Parser}
use bacchus.Netd.Serve.{authorize, handle_open, handle_close, dispatch}

compare_loop-false : (a b : Bytes) → compare_loop false a b ≡ false
unfolding compare_loop
compare_loop-false [] b = refl
compare_loop-false (x ∷ a) [] = refl
compare_loop-false (x ∷ a) (y ∷ b) = compare_loop-false a b

compare_loop→eq : (a b : Bytes) → length a ≡ length b → compare_loop true a b ≡ true → a ≡ b
unfolding compare_loop
compare_loop→eq [] [] e h = refl
compare_loop→eq [] (y ∷ b) e h = absurd (omega (arith, e))
compare_loop→eq (x ∷ a) [] e h = absurd (omega (arith, e))
compare_loop→eq (x ∷ a) (y ∷ b) e h = elim (Bool-cases (x == y)) [
  | inl same ↦ ground (arith, compare_loop→eq a b (omega (arith, e)))
  | inr differ ↦ ground (arith, compare_loop-false a b)
]

compare_loop_refl : (a : Bytes) → compare_loop true a a ≡ true
unfolding compare_loop
compare_loop_refl [] = refl
compare_loop_refl (x ∷ a) = ground (arith, compare_loop_refl a)

-- The comparison that does not stop early finds out exactly whether the tokens are equal.
pub subtle_compare_iff : (a b : Bytes) → (subtle_compare a b ≡ true) ↔ (a ≡ b)
unfolding subtle_compare
subtle_compare_iff a b =
    (λ h. ground (arith, compare_loop→eq a b), λ e. ground (arith, compare_loop_refl a))

pub authorize_sound :
    (req : Request) (h : Option Session) (s : Session)
    → authorize req h ≡ ok s
    → (h ≡ some s) × (req.token ≡ s.token)
unfolding authorize
authorize_sound req none s e = ground arith
authorize_sound req (some s') s e = ground (arith, subtle_compare_iff req.token s'.token)

module _ {W : Type 0} (K : Kernel W) (P : Parser) (to_text : Addr → Bytes) where
  -- What a client that does not hold the session's token is told.
  abbrev pub Holds : Request → Option Session → Type 0
  Holds req none = ⊥
  Holds req (some s) = req.token ≡ s.token

  unauthorized :
      (req : Request) (h : Option Session) → ¬ Holds req h → (r : Reply) × (authorize req h ≡ err r)
  unfolding authorize
  unauthorized req none no_one = (failed no_session, refl)
  unauthorized req (some s) stranger = elim (Bool-cases (length req.token == 0)) [
    | inl empty ↦ (failed bad_token, ground arith)
    | inr sent ↦ elim (Bool-cases (subtle_compare req.token s.token)) [
      | inl same ↦ absurd (stranger ((subtle_compare_iff req.token s.token).0 same))
      | inr differ ↦ (failed bad_token, ground arith)
    ]
  ]

  close_unauthorized :
      (req : Request) (h : Option Session) (w : W)
      → ¬ Holds req h
      → let (r, h', w') = handle_close K P to_text req h w in (h' ≡ h) × (w' ≡ w)
  unfolding handle_close
  close_unauthorized req none w stranger = (refl, refl)
  close_unauthorized req (some s) w stranger = ground (arith, subtle_compare_iff req.token s.token)

  -- A request that does not carry the token of the session that is open changes neither the session nor
  -- the machine, unless it opens a session while there is none; and a second open is told `busy`.
  pub stranger_changes_nothing :
      (uid : ℕ) (req : Request) (h : Option Session) (w : W)
      → ¬ Holds req h
      → let (r, h', w') = dispatch K P to_text uid req h w in
        (((h ≡ none) × (req.verb ≡ Verb.begin)) ⊎ ((h' ≡ h) × (w' ≡ w)))
        × ((req.verb ≢ Verb.begin) ⊎ (h ≡ none) ⊎ (r ≡ failed busy))
  unfolding dispatch handle_open
  stranger_changes_nothing uid req h w stranger =
      ground (arith, unauthorized req h stranger, close_unauthorized req h w stranger)
