-- ===== src/Base/Slots.antt =====
-- Fixed tables of slots, searched by a test: the shape of the tables in the firmware's C files.
-- A loop `for (i...) if (p(t[i])) { t[i] = f(t[i]); return; }` is `update_first` where `exists_slot`
-- holds, and falls through to what follows the loop where it does not.
use Prim.Native.Nat.{ℕ, zero, suc, ◌<◌}
use mathlib.Core.Path.{◌≡◌, refl, ap}
use mathlib.Core.Bool.{Bool, true, false}
use mathlib.Core.List.{List, [], ◌∷◌}
use mathlib.Core.Option.{Option, none, some}
use native.Mathlib.Omega.{arith}
use esp32_wifi_ap_cp.Base.Tests.{if◌then◌else◌}
use esp32_wifi_ap_cp.Base.Lists.{length, get_or, set, replicate}

abbrev shift : Option ℕ → Option ℕ
shift none = none
shift (some i) = some (suc i)

module _ {ℓ} {A : Type ℓ} where
  -- The first slot that passes the test is changed.
  abbrev pub update_first : (A → Bool) → (A → A) → List A → List A
  update_first p f [] = []
  update_first p f (x ∷ xs) = let rest = update_first p f xs in if p x then f x ∷ xs else x ∷ rest

  -- Every slot that passes the test is changed.
  abbrev pub update_all : (A → Bool) → (A → A) → List A → List A
  update_all p f [] = []
  update_all p f (x ∷ xs) = (if p x then f x else x) ∷ update_all p f xs

  abbrev pub exists_slot : (A → Bool) → List A → Bool
  exists_slot p [] = false
  exists_slot p (x ∷ xs) = let rest = exists_slot p xs in if p x then true else rest

  -- The index of the first slot that passes the test; `none` stands for the -1 of the source.
  abbrev pub find_slot : (A → Bool) → List A → Option ℕ
  find_slot p [] = none
  find_slot p (x ∷ xs) = let rest = find_slot p xs in if p x then some zero else shift rest

  abbrev pub All {κ} : (A → Type κ) → List A → Type κ
  All P [] = Unit
  All P (x ∷ xs) = P x × All P xs

module _ {ℓ} {A : Type ℓ} where
  pub length-update_first :
      (p : A → Bool) (f : A → A) (xs : List A) → length (update_first p f xs) ≡ length xs
  length-update_first p f [] = refl
  length-update_first p f (x ∷ xs) = ground (arith, length-update_first p f xs)

  pub length-update_all :
      (p : A → Bool) (f : A → A) (xs : List A) → length (update_all p f xs) ≡ length xs
  length-update_all p f [] = refl
  length-update_all p f (x ∷ xs) = ap suc (length-update_all p f xs)

  pub All-update_all {κ} :
      (P : A → Type κ) (p : A → Bool) (f : A → A) (xs : List A)
      → ((x : A) → P x → P (f x))
      → All P xs
      → All P (update_all p f xs)
  All-update_all P p f [] keep h = tt
  All-update_all P p f (x ∷ xs) keep h =
      ground (arith, keep x h.0, All-update_all P p f xs keep h.1)

  pub All-update_first {κ} :
      (P : A → Type κ) (p : A → Bool) (f : A → A) (xs : List A)
      → ((x : A) → p x ≡ true → P x → P (f x))
      → All P xs
      → All P (update_first p f xs)
  All-update_first P p f [] keep h = tt
  All-update_first P p f (x ∷ xs) keep h =
      ground (arith, keep x, All-update_first P p f xs keep h.1)

  pub find_slot-lt : (p : A → Bool) (xs : List A) {i : ℕ} → find_slot p xs ≡ some i → i < length xs
  find_slot-lt p [] h = ground arith
  find_slot-lt p (x ∷ xs) {i = zero} h = omega arith
  find_slot-lt p (x ∷ xs) {i = suc i} h = ground (arith, find_slot-lt p xs {i = i})

  pub All-set {κ} :
      (P : A → Type κ) (xs : List A) (i : ℕ) (v : A) → P v → All P xs → All P (set xs i v)
  All-set P [] i v pv h = tt
  All-set P (x ∷ xs) zero v pv h = (pv, h.1)
  All-set P (x ∷ xs) (suc i) v pv h = (h.0, All-set P xs i v pv h.1)

  pub All-get_or {κ} :
      (P : A → Type κ) (xs : List A) (i : ℕ) (d : A) → P d → All P xs → P (get_or xs i d)
  All-get_or P [] i d pd h = pd
  All-get_or P (x ∷ xs) zero d pd h = h.0
  All-get_or P (x ∷ xs) (suc i) d pd h = All-get_or P xs i d pd h.1

  -- The slot found passes the test.
  pub find_slot_sound :
      (p : A → Bool) (xs : List A) (i : ℕ) (d : A)
      → find_slot p xs ≡ some i
      → p (get_or xs i d) ≡ true
  find_slot_sound p [] i d h = ground arith
  find_slot_sound p (x ∷ xs) zero d h = ground arith
  find_slot_sound p (x ∷ xs) (suc i) d h = ground (arith, find_slot_sound p xs i d)

  pub set-set : (xs : List A) (i : ℕ) (v w : A) → set (set xs i v) i w ≡ set xs i w
  set-set [] i v w = refl
  set-set (x ∷ xs) zero v w = refl
  set-set (x ∷ xs) (suc i) v w = ap (◌∷◌ x) (set-set xs i v w)

  pub get_or-set_self :
      (xs : List A) (i : ℕ) (v d : A) → i < length xs → get_or (set xs i v) i d ≡ v
  get_or-set_self [] i v d h = elim h [ ]
  get_or-set_self (x ∷ xs) zero v d h = refl
  get_or-set_self (x ∷ xs) (suc i) v d h = get_or-set_self xs i v d (omega arith)

  -- Where no slot passes, no slot read passes.
  pub find_slot-none :
      (p : A → Bool) (xs : List A) → find_slot p xs ≡ none → exists_slot p xs ≡ false
  find_slot-none p [] h = refl
  find_slot-none p (x ∷ xs) h = ground (arith, find_slot-none p xs)

  pub exists_slot-set :
      (p : A → Bool) (xs : List A) (i : ℕ) (v : A)
      → p v ≡ false
      → exists_slot p xs ≡ false
      → exists_slot p (set xs i v) ≡ false
  exists_slot-set p [] i v e h = h
  exists_slot-set p (x ∷ xs) zero v e h = ground arith
  exists_slot-set p (x ∷ xs) (suc i) v e h = ground (arith, exists_slot-set p xs i v e)

  pub set-get_or : (xs : List A) (i : ℕ) (d : A) → set xs i (get_or xs i d) ≡ xs
  set-get_or [] i d = refl
  set-get_or (x ∷ xs) zero d = refl
  set-get_or (x ∷ xs) (suc i) d = ap (◌∷◌ x) (set-get_or xs i d)

  pub exists_slot_at :
      (p : A → Bool) (xs : List A) (i : ℕ) (d : A)
      → i < length xs
      → p (get_or xs i d) ≡ true
      → exists_slot p xs ≡ true
  exists_slot_at p [] i d l h = elim l [ ]
  exists_slot_at p (x ∷ xs) zero d l h = ground arith
  exists_slot_at p (x ∷ xs) (suc i) d l h = ground (arith, exists_slot_at p xs i d)

  pub exists_slot_nowhere :
      (p : A → Bool) (xs : List A) (d : A)
      → ((i : ℕ) → i < length xs → p (get_or xs i d) ≡ false)
      → exists_slot p xs ≡ false
  exists_slot_nowhere p [] d h = refl
  exists_slot_nowhere p (x ∷ xs) d h =
      ground (arith, h 0 (omega arith), exists_slot_nowhere p xs d (λ i l. h (suc i) (omega arith)))

  pub All-replicate {κ} : (P : A → Type κ) (n : ℕ) (a : A) → P a → All P (replicate n a)
  All-replicate P zero a h = tt
  All-replicate P (suc n) a h = (h, All-replicate P n a h)
