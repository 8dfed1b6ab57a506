-- ===== src/Common/Lists.antt =====
-- Lists measured and indexed by native numbers, under the library's names.
use Prim.Native.Nat.{ℕ, zero, suc, ◌+◌, ◌≤◌}
use mathlib.Core.Path.{◌≡◌, refl, sym, ap, ◌∙◌}
use mathlib.Core.List.{List, [], ◌∷◌, ◌++◌, map, append_assoc}
use native.Mathlib.Omega.{arith}

-- Every entry of a list satisfies a predicate.
abbrev pub All {ℓ κ} : {A : Type ℓ} → (A → Type κ) → List A → Type κ
All P [] = Unit
All P (x ∷ xs) = P x × All P xs

pub All-append {ℓ κ} :
    {A : Type ℓ} (P : A → Type κ) (xs ys : List A) → All P xs → All P ys → All P (xs ++ ys)
All-append P [] ys hx hy = hy
All-append P (x ∷ xs) ys hx hy = (hx.0, All-append P xs ys hx.1 hy)

module _ {ℓ} {A : Type ℓ} where
  abbrev pub length : List A → ℕ
  length [] = 0
  length (x ∷ xs) = suc (length xs)

  abbrev pub get_or : List A → ℕ → A → A
  get_or [] i d = d
  get_or (x ∷ xs) zero d = x
  get_or (x ∷ xs) (suc i) d = get_or xs i d

  abbrev pub take : ℕ → List A → List A
  take zero xs = []
  take (suc n) [] = []
  take (suc n) (x ∷ xs) = x ∷ take n xs

  abbrev pub drop : ℕ → List A → List A
  drop zero xs = xs
  drop (suc n) [] = []
  drop (suc n) (x ∷ xs) = drop n xs

  pub length-append : (xs ys : List A) → length (xs ++ ys) ≡ length xs + length ys
  length-append [] ys = omega arith
  length-append (x ∷ xs) ys = omega (arith, length-append xs ys)

  pub take-append : (xs ys : List A) → take (length xs) (xs ++ ys) ≡ xs
  take-append [] ys = refl
  take-append (x ∷ xs) ys = ap (◌∷◌ x) (take-append xs ys)

  pub take-all : (n : ℕ) (xs : List A) → length xs ≤ n → take n xs ≡ xs
  take-all zero [] h = refl
  take-all zero (x ∷ xs) h = elim h [ ]
  take-all (suc n) [] h = refl
  take-all (suc n) (x ∷ xs) h = ap (◌∷◌ x) (take-all n xs (omega arith))

-- What stands where in a list whose first part has a known length.
module _ {ℓ} {A : Type ℓ} where
  pub take-append_eq : (n : ℕ) (xs ys : List A) → length xs ≡ n → take n (xs ++ ys) ≡ xs
  take-append_eq zero [] ys h = refl
  take-append_eq zero (x ∷ xs) ys h = absurd (omega arith)
  take-append_eq (suc n) [] ys h = absurd (omega arith)
  take-append_eq (suc n) (x ∷ xs) ys h = ap (◌∷◌ x) (take-append_eq n xs ys (omega arith))

  pub get_or-append :
      (n : ℕ) (xs : List A) (a b : A) (ys : List A) (d : A)
      → length xs ≡ n
      → (get_or (xs ++ a ∷ b ∷ ys) n d ≡ a) × (get_or (xs ++ a ∷ b ∷ ys) (suc n) d ≡ b)
  get_or-append zero [] a b ys d h = (refl, refl)
  get_or-append zero (x ∷ xs) a b ys d h = absurd (omega arith)
  get_or-append (suc n) [] a b ys d h = absurd (omega arith)
  get_or-append (suc n) (x ∷ xs) a b ys d h = get_or-append n xs a b ys d (omega arith)

  -- The last two of the first n + 2 entries.
  pub take-split :
      (n : ℕ) (s : List A) (d : A)
      → suc (suc n) ≤ length s
      → take (suc (suc n)) s ≡ take n s ++ get_or s n d ∷ get_or s (suc n) d ∷ []
  take-split n [] d h = absurd (omega arith)
  take-split n (x ∷ []) d h = absurd (omega arith)
  take-split zero (x ∷ y ∷ s) d h = refl
  take-split (suc n) (x ∷ y ∷ s) d h = ap (◌∷◌ x) (take-split n (y ∷ s) d (omega arith))

  pub length-take : (n : ℕ) (s : List A) → n ≤ length s → length (take n s) ≡ n
  length-take zero s h = refl
  length-take (suc n) [] h = absurd (omega arith)
  length-take (suc n) (x ∷ s) h = ap suc (length-take n s (omega arith))

  pub All-take {κ} : (P : A → Type κ) (n : ℕ) (s : List A) → All P s → All P (take n s)
  All-take P zero s h = tt
  All-take P (suc n) [] h = tt
  All-take P (suc n) (x ∷ s) h = (h.0, All-take P n s h.1)

  pub All-drop {κ} : (P : A → Type κ) (n : ℕ) (s : List A) → All P s → All P (drop n s)
  All-drop P zero s h = h
  All-drop P (suc n) [] h = h
  All-drop P (suc n) (a ∷ s) h = All-drop P n s h.1

  pub All-get_or {κ} :
      (P : A → Type κ) (n : ℕ) (s : List A) (d : A) → P d → All P s → P (get_or s n d)
  All-get_or P n [] d hd h = hd
  All-get_or P zero (x ∷ s) d hd h = h.0
  All-get_or P (suc n) (x ∷ s) d hd h = All-get_or P n s d hd h.1

  pub length-map {κ} : {B : Type κ} (f : A → B) (xs : List A) → length (map f xs) ≡ length xs
  length-map f [] = refl
  length-map f (x ∷ xs) = ap suc (length-map f xs)

  pub drop-append : (xs ys : List A) → drop (length xs) (xs ++ ys) ≡ ys
  drop-append [] ys = refl
  drop-append (x ∷ xs) ys = drop-append xs ys

  -- Two steps of a history: what each gives out and leaves is what it found and what came in.
  pub chain :
      (xs ys rest held now new later : List A)
      → xs ++ now ≡ held ++ new
      → ys ++ rest ≡ now ++ later
      → (xs ++ ys) ++ rest ≡ held ++ (new ++ later)
  chain xs ys rest held now new later h k =
      append_assoc xs ys rest
      ∙ ap (◌++◌ xs) k
      ∙ sym (append_assoc xs now later)
      ∙ ap (λ l. l ++ later) h
      ∙ append_assoc held new later
