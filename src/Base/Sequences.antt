-- ===== src/Base/Sequences.antt =====
-- The metapool library's `mtp::vault` where elements are put in and taken out anywhere: a container
-- is described by the list of its elements.
use Prim.Native.Nat.{ℕ, zero, suc, ◌+◌, ◌≤◌, ◌<◌}
use mathlib.Core.Path.{◌≡◌, refl, ap}
use mathlib.Core.List.{List, [], ◌∷◌, ◌++◌}
use mathlib.Core.Option.{Option}
use native.Mathlib.Omega.{arith}
use hyprie.Base.Lists.{length, get_elem?, set, snoc}

module _ {A : Type 0} where
  abbrev pub insert_at : List A → ℕ → A → List A
  insert_at xs zero a = a ∷ xs
  insert_at [] (suc i) a = a ∷ []
  insert_at (x ∷ xs) (suc i) a = x ∷ insert_at xs i a

  abbrev pub remove_at : List A → ℕ → List A
  remove_at [] i = []
  remove_at (x ∷ xs) zero = xs
  remove_at (x ∷ xs) (suc i) = x ∷ remove_at xs i

-- `at v i` is `v[i]`, `none` out of range; `emplace` and `erase` have the position as an index.
pub record Sequence : Type 1 where
  pub Vec : Type 0 → Type 0
  pub content : {A : Type 0} → Vec A → List A
  pub size : {A : Type 0} → Vec A → ℕ
  pub at : {A : Type 0} → Vec A → ℕ → Option A
  pub empty : {A : Type 0} → Vec A
  pub push_back : {A : Type 0} → Vec A → A → Vec A
  pub emplace : {A : Type 0} → Vec A → ℕ → A → Vec A
  pub erase : {A : Type 0} → Vec A → ℕ → Vec A
  pub store : {A : Type 0} → Vec A → ℕ → A → Vec A
  pub clear : {A : Type 0} → Vec A → Vec A
  pub size-content : {A : Type 0} (v : Vec A) → size v ≡ length (content v)
  pub at-content : {A : Type 0} (v : Vec A) (i : ℕ) → at v i ≡ get_elem? (content v) i
  pub content-empty : {A : Type 0} → content (empty {A = A}) ≡ []
  pub content-push_back :
      {A : Type 0} (v : Vec A) (a : A) → content (push_back v a) ≡ snoc (content v) a
  pub content-emplace :
      {A : Type 0} (v : Vec A) (i : ℕ) (a : A)
      → i ≤ size v
      → content (emplace v i a) ≡ insert_at (content v) i a
  pub content-erase :
      {A : Type 0} (v : Vec A) (i : ℕ) → i < size v → content (erase v i) ≡ remove_at (content v) i
  pub content-store :
      {A : Type 0} (v : Vec A) (i : ℕ) (a : A)
      → i < size v
      → content (store v i a) ≡ set (content v) i a
  pub content-clear : {A : Type 0} (v : Vec A) → content (clear v) ≡ []

-- Lists meet the contract.
abbrev pub list_sequence : Sequence
list_sequence = record {
  Vec = λ A. List A;
  content = λ {A} v. v;
  size = λ {A} v. length v;
  at = λ {A} v i. get_elem? v i;
  empty = λ {A}. [];
  push_back = λ {A} v a. snoc v a;
  emplace = λ {A} v i a. insert_at v i a;
  erase = λ {A} v i. remove_at v i;
  store = λ {A} v i a. set v i a;
  clear = λ {A} v. [];
  size-content = λ {A} v. refl;
  at-content = λ {A} v i. refl;
  content-empty = λ {A}. refl;
  content-push_back = λ {A} v a. refl;
  content-emplace = λ {A} v i a h. refl;
  content-erase = λ {A} v i h. refl;
  content-store = λ {A} v i a h. refl;
  content-clear = λ {A} v. refl;
}

module _ {A : Type 0} where
  pub length-++ : (xs ys : List A) → length (xs ++ ys) ≡ length xs + length ys
  length-++ [] ys = omega arith
  length-++ (x ∷ xs) ys = omega (arith, length-++ xs ys)

  pub get_elem?-++_left :
      (xs ys : List A) (i : ℕ) → i < length xs → get_elem? (xs ++ ys) i ≡ get_elem? xs i
  get_elem?-++_left [] ys i h = absurd (omega arith)
  get_elem?-++_left (x ∷ xs) ys zero h = refl
  get_elem?-++_left (x ∷ xs) ys (suc i) h = get_elem?-++_left xs ys i (omega arith)

  pub get_elem?-++_right :
      (xs ys : List A) (i k : ℕ) → length xs + i ≡ k → get_elem? (xs ++ ys) k ≡ get_elem? ys i
  get_elem?-++_right [] ys i k e = let d : k ≡ i = omega arith in rw d refl
  get_elem?-++_right (x ∷ xs) ys i zero e = absurd (omega arith)
  get_elem?-++_right (x ∷ xs) ys i (suc k) e = get_elem?-++_right xs ys i k (omega arith)

  pub insert_at-++ : (xs ys : List A) (a : A) → insert_at (xs ++ ys) (length xs) a ≡ snoc xs a ++ ys
  insert_at-++ [] ys a = refl
  insert_at-++ (x ∷ xs) ys a = ap (λ l. x ∷ l) (insert_at-++ xs ys a)

  pub snoc-++ : (xs ys : List A) (a : A) → snoc (xs ++ ys) a ≡ xs ++ snoc ys a
  snoc-++ [] ys a = refl
  snoc-++ (x ∷ xs) ys a = ap (λ l. x ∷ l) (snoc-++ xs ys a)

  pub remove_at-++_left :
      (xs ys : List A) (i : ℕ) → i < length xs → remove_at (xs ++ ys) i ≡ remove_at xs i ++ ys
  remove_at-++_left [] ys i h = absurd (omega arith)
  remove_at-++_left (x ∷ xs) ys zero h = refl
  remove_at-++_left (x ∷ xs) ys (suc i) h =
      ap (λ l. x ∷ l) (remove_at-++_left xs ys i (omega arith))

  pub remove_at-++_right :
      (xs ys : List A) (i k : ℕ) → length xs + i ≡ k → remove_at (xs ++ ys) k ≡ xs ++ remove_at ys i
  remove_at-++_right [] ys i k e = let d : k ≡ i = omega arith in rw d refl
  remove_at-++_right (x ∷ xs) ys i zero e = absurd (omega arith)
  remove_at-++_right (x ∷ xs) ys i (suc k) e =
      ap (λ l. x ∷ l) (remove_at-++_right xs ys i k (omega arith))

  pub length-remove_at :
      (xs : List A) (i : ℕ) → i < length xs → length (remove_at xs i) + 1 ≡ length xs
  length-remove_at [] i h = absurd (omega arith)
  length-remove_at (x ∷ xs) zero h = omega arith
  length-remove_at (x ∷ xs) (suc i) h = omega (arith, length-remove_at xs i)

  pub append_assoc : (xs ys zs : List A) → (xs ++ ys) ++ zs ≡ xs ++ (ys ++ zs)
  append_assoc [] ys zs = refl
  append_assoc (x ∷ xs) ys zs = ap (λ l. x ∷ l) (append_assoc xs ys zs)

  pub append_nil : (xs : List A) → xs ++ [] ≡ xs
  append_nil [] = refl
  append_nil (x ∷ xs) = ap (λ l. x ∷ l) (append_nil xs)

  pub snoc-append : (xs : List A) (a : A) (ys : List A) → snoc xs a ++ ys ≡ xs ++ (a ∷ ys)
  snoc-append [] a ys = refl
  snoc-append (x ∷ xs) a ys = ap (λ l. x ∷ l) (snoc-append xs a ys)
