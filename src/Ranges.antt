-- ===== src/Ranges.antt =====
-- What core/geoip and core/asn use of net/netip and slices: addresses of the two families, without a
-- zone, their order, and the binary search over a sorted table of ranges.
pub mod Search
pub mod Rows
use bacchus.Shared.{
  ℕ, zero, suc, ◌+◌, ◌/◌, ◌%◌, ◌^◌, List, [], ◌∷◌, Bool, true, false, not, ◌&&◌, ◌||◌, Option, none,
  some, ltb, leb, ◌==◌, if◌then◌else◌, length,
}

-- `netip.Addr`: its bits as a number, of 32 bits if `is4` and of 128 bits otherwise.
pub record Addr : Type 0 where
  pub is4 : Bool
  pub value : ℕ

-- `Addr.Unmap`: `::ffff:a.b.c.d` is the address of the other family.
unfoldable pub unmap : Addr → Addr
unmap a =
    if not a.is4 && (a.value / 2 ^ 32) == 0xffff
    then record { is4 = true; value = a.value % 2 ^ 32 }
    else a

-- The order of `Addr.Compare`: every address of 32 bits is below every one of 128 bits.
abbrev pub rank : Addr → ℕ
rank a = if a.is4 then a.value else 2 ^ 32 + a.value

abbrev pub less : Addr → Addr → Bool
less a b = ltb (rank a) (rank b)

is_public4 : ℕ → Bool
is_public4 v =
    not (v == 0)
    && not (v == 0xffff_ffff)
    && not ((v / 2 ^ 24) == 127)
    && not ((v / 2 ^ 28) == 14)
    && not ((v / 2 ^ 16) == 0xa9fe)
    && not ((v / 2 ^ 24) == 10)
    && not ((v / 2 ^ 20) == 0xac1)
    && not ((v / 2 ^ 16) == 0xc0a8)

is_public6 : ℕ → Bool
is_public6 v =
    not (v == 0)
    && not (v == 1)
    && not ((v / 2 ^ 120) == 0xff)
    && not ((v / 2 ^ 118) == 0x3fa)
    && not ((v / 2 ^ 121) == 0x7e)

-- `IsGlobalUnicast() && !IsPrivate() && !IsLinkLocalUnicast()`.
unfoldable pub is_public : Addr → Bool
unfolding is_public4 is_public6
is_public a = if a.is4 then is_public4 a.value else is_public6 a.value

abbrev pub get_elem? {ℓ} : {A : Type ℓ} → ℕ → List A → Option A
get_elem? n [] = none
get_elem? zero (x ∷ xs) = some x
get_elem? (suc n) (x ∷ xs) = get_elem? n xs

-- The loop of `slices.BinarySearchFunc` between `i` and `j`; `below h` says that row `h` compares
-- less than the target.
unfoldable pub search : ℕ → (ℕ → Bool) → ℕ → ℕ → ℕ
search zero below i j = i
search (suc fuel) below i j =
    let h = (i + j) / 2 in
    let goes_up = below h in
    let rest = search fuel below (if goes_up then suc h else i) (if goes_up then j else h) in
    if ltb i j then rest else i

module _ {R : Type 0} (lo : R → ℕ) (covers : R → Bool) (t : ℕ) (rows : List R) where
  abbrev starts_below : Option R → Bool
  starts_below none = false
  starts_below (some r) = ltb (lo r) t

  abbrev pub below_at : ℕ → Bool
  below_at h = starts_below (get_elem? h rows)

  abbrev row_before : ℕ → Option R
  row_before zero = none
  row_before (suc i) = elim (get_elem? i rows) [
    | none ↦ none
    | some r ↦ if covers r then some r else none
  ]

  -- What the lookup does with the insertion point.
  abbrev pub pick : ℕ → Option R
  pick i = elim (get_elem? i rows) [
    | none ↦ row_before i
    | some r ↦ if lo r == t then some r else row_before i
  ]

  unfoldable pub find_row : Option R
  find_row = pick (search (length rows) below_at 0 (length rows))
