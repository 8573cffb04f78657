-- ===== src/Bytes.antt =====
-- The loop `for (d, s) in destination.iter_mut().zip(source) { *d ^= s; }` of src/prg.rs and
-- src/blc.rs, and its laws on slices of one length.
pub mod Slices
use mqom_rs.Base.{
  ℕ, zero, suc, ◌+◌, ◌≤◌, ◌≡◌, refl, sym, ap, ap₂, ◌∙◌, arith, List, [], ◌∷◌, ◌++◌, length, take,
  drop, replicate, length-replicate, get_or, get_or-replicate, length-append, length-take,
  length-drop, take-append, drop-append, Option, none, some, ◌==◌, ==_iff, if◌then◌else◌, U8,
  xor_u8, xor_u8_assoc, xor_u8_comm, xor_u8_self, xor_u8-zero,
}

unfoldable pub xor_zip : List U8 → List U8 → List U8
xor_zip [] source = []
xor_zip (d ∷ destination) [] = d ∷ destination
xor_zip (d ∷ destination) (s ∷ source) = xor_u8 d s ∷ xor_zip destination source

pub length-xor_zip : (a b : List U8) → length (xor_zip a b) ≡ length a
unfolding xor_zip
length-xor_zip [] b = refl
length-xor_zip (x ∷ a) [] = refl
length-xor_zip (x ∷ a) (y ∷ b) = ap suc (length-xor_zip a b)

-- Xoring twice restores the destination, whatever the lengths.
pub xor_zip_cancel : (a b : List U8) → xor_zip (xor_zip a b) b ≡ a
unfolding xor_zip
xor_zip_cancel [] b = refl
xor_zip_cancel (x ∷ a) [] = refl
xor_zip_cancel (x ∷ a) (y ∷ b) =
    ap₂ ◌∷◌ (xor_u8_assoc x y y ∙ ap (xor_u8 x) (xor_u8_self y) ∙ xor_u8-zero x)
      (xor_zip_cancel a b)

pub xor_zip_comm : (a b : List U8) → length a ≡ length b → xor_zip a b ≡ xor_zip b a
unfolding xor_zip
xor_zip_comm [] [] e = refl
xor_zip_comm [] (y ∷ b) e = absurd (omega arith)
xor_zip_comm (x ∷ a) [] e = absurd (omega arith)
xor_zip_comm (x ∷ a) (y ∷ b) e = ap₂ ◌∷◌ (xor_u8_comm x y) (xor_zip_comm a b (omega arith))

pub xor_zip_assoc :
    (a b c : List U8) → length b ≡ length c → xor_zip (xor_zip a b) c ≡ xor_zip a (xor_zip b c)
unfolding xor_zip
xor_zip_assoc [] b c e = refl
xor_zip_assoc (x ∷ a) [] [] e = refl
xor_zip_assoc (x ∷ a) [] (z ∷ c) e = absurd (omega arith)
xor_zip_assoc (x ∷ a) (y ∷ b) [] e = absurd (omega arith)
xor_zip_assoc (x ∷ a) (y ∷ b) (z ∷ c) e =
    ap₂ ◌∷◌ (xor_u8_assoc x y z) (xor_zip_assoc a b c (omega arith))

pub xor_zip-append :
    (a b c d : List U8)
    → length a ≡ length c
    → xor_zip (a ++ b) (c ++ d) ≡ xor_zip a c ++ xor_zip b d
unfolding xor_zip
xor_zip-append [] b [] d e = refl
xor_zip-append [] b (z ∷ c) d e = absurd (omega arith)
xor_zip-append (x ∷ a) b [] d e = absurd (omega arith)
xor_zip-append (x ∷ a) b (z ∷ c) d e = ap (◌∷◌ (xor_u8 x z)) (xor_zip-append a b c d (omega arith))

-- Xoring is injective in the destination, and with a fixed destination in the source.
pub xor_zip_inj : (a b s : List U8) → xor_zip a s ≡ xor_zip b s → a ≡ b
xor_zip_inj a b s e = sym (xor_zip_cancel a s) ∙ ap (λ t. xor_zip t s) e ∙ xor_zip_cancel b s

pub take-xor_zip : (n : ℕ) (a b : List U8) → take n (xor_zip a b) ≡ xor_zip (take n a) (take n b)
unfolding xor_zip
take-xor_zip zero a b = refl
take-xor_zip (suc n) [] b = refl
take-xor_zip (suc n) (x ∷ a) [] = refl
take-xor_zip (suc n) (x ∷ a) (y ∷ b) = ap (◌∷◌ (xor_u8 x y)) (take-xor_zip n a b)

pub drop-xor_zip : (n : ℕ) (a b : List U8) → drop n (xor_zip a b) ≡ xor_zip (drop n a) (drop n b)
unfolding xor_zip
drop-xor_zip zero a b = refl
drop-xor_zip (suc n) [] b = refl
drop-xor_zip (suc n) (x ∷ a) [] = nothing_left (drop n a)
  where
    nothing_left : (l : List U8) → l ≡ xor_zip l []
    nothing_left [] = refl
    nothing_left (z ∷ l) = refl
drop-xor_zip (suc n) (x ∷ a) (y ∷ b) = drop-xor_zip n a b

-- `[value; n]`, kept shut so that no proof writes it out.
unfoldable pub filled {ℓ} : {A : Type ℓ} → ℕ → A → List A
filled n value = replicate n value

pub length-filled {ℓ} : {A : Type ℓ} (n : ℕ) (value : A) → length (filled n value) ≡ n
unfolding filled
length-filled n value = length-replicate n value

pub get_or-filled {ℓ} :
    {A : Type ℓ} (n : ℕ) (value : A) (i : ℕ) → get_or (filled n value) i value ≡ value
unfolding filled
get_or-filled n value i = get_or-replicate n value i

-- `slice.try_into().ok()` into an array of `n`.
unfoldable pub try_into {ℓ} : {A : Type ℓ} → ℕ → List A → Option (List A)
try_into n xs = if length xs == n then some xs else none

pub try_into-some {ℓ} : {A : Type ℓ} (n : ℕ) (xs : List A) → length xs ≡ n → try_into n xs ≡ some xs
unfolding try_into
try_into-some n xs e = rw ((==_iff (length xs) n).1 e)

-- `xs[offset..offset + ys.len()].copy_from_slice(ys)`.
unfoldable pub write_at {ℓ} : {A : Type ℓ} → List A → ℕ → List A → List A
write_at xs offset ys = take offset xs ++ (ys ++ drop (offset + length ys) xs)

pub drop_past {ℓ} :
    {A : Type ℓ} (xs ys : List A) (n : ℕ) → drop (length xs + n) (xs ++ ys) ≡ drop n ys
drop_past [] ys n = ap (λ k. drop k ys) {x = 0 + n} {y = n} (omega arith)
drop_past (x ∷ xs) ys n =
    ap (λ k. drop k (x ∷ (xs ++ ys))) {x = suc (length xs) + n} {y = suc (length xs + n)}
      (omega arith)
    ∙ drop_past xs ys n

pub drop_exactly {ℓ} :
    {A : Type ℓ} (xs ys : List A) (n : ℕ) → n ≡ length xs → drop n (xs ++ ys) ≡ ys
drop_exactly xs ys n e = ap (λ k. drop k (xs ++ ys)) e ∙ drop-append xs ys

-- A write into the middle of three parts.
pub write_at-append {ℓ} :
    {A : Type ℓ} (before old after new : List A)
    → length old ≡ length new
    → write_at (before ++ (old ++ after)) (length before) new ≡ before ++ (new ++ after)
unfolding write_at
write_at-append before old after new e =
    ap₂ (λ s t. s ++ (new ++ t)) (take-append before (old ++ after))
      (drop_past before (old ++ after) (length new) ∙ drop_exactly old after (length new) (sym e))

pub length-write_at {ℓ} :
    {A : Type ℓ} (xs : List A) (offset : ℕ) (ys : List A)
    → offset + length ys ≤ length xs
    → length (write_at xs offset ys) ≡ length xs
unfolding write_at
length-write_at xs offset ys h = omega (
  arith,
  length-append (take offset xs) (ys ++ drop (offset + length ys) xs),
  length-append ys (drop (offset + length ys) xs),
  length-take offset xs,
  length-drop (offset + length ys) xs,
)
