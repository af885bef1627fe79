-- ===== src/Mux/Ring/Slices.antt =====
-- Laws of `take` and `drop` that the buffer's proofs use.
use wire_rift.Prelude.{
  drop_all, length-drop, ℕ, zero, suc, ◌+◌, ◌-◌, ◌≤◌, ◌≡◌, refl, ap, ◌∙◌, sym, List, [], ◌∷◌, ◌++◌,
  length, take, drop, arith, append-nil, append_assoc, length-take, length-append, take_append,
}

module _ {ℓ} {A : Type ℓ} where
  drop_nil : (n : ℕ) → drop {A = A} n [] ≡ []
  drop_nil zero = refl
  drop_nil (suc n) = refl

  take_nil : (n : ℕ) → take {A = A} n [] ≡ []
  take_nil zero = refl
  take_nil (suc n) = refl

  pub drop-append_le :
      (n : ℕ) (xs ys : List A) → n ≤ length xs → drop n (xs ++ ys) ≡ drop n xs ++ ys
  drop-append_le zero xs ys h = refl
  drop-append_le (suc n) [] ys h = absurd (omega arith)
  drop-append_le (suc n) (x ∷ xs) ys h = drop-append_le n xs ys (omega arith)

  pub drop-append_ge :
      (n : ℕ) (xs ys : List A) → length xs ≤ n → drop n (xs ++ ys) ≡ drop (n - length xs) ys
  drop-append_ge n [] ys h = ap (λ k. drop k ys) (omega arith)
  drop-append_ge zero (x ∷ xs) ys h = absurd (omega arith)
  drop-append_ge (suc n) (x ∷ xs) ys h =
      drop-append_ge n xs ys (omega arith) ∙ ap (λ k. drop k ys) (omega arith)

  pub drop-drop : (m n : ℕ) (xs : List A) → drop m (drop n xs) ≡ drop (n + m) xs
  drop-drop m zero xs = ap (λ k. drop k xs) (omega arith)
  drop-drop m (suc n) [] = drop_nil m ∙ sym (drop_nil (suc n + m))
  drop-drop m (suc n) (x ∷ xs) = drop-drop m n xs ∙ ap (λ k. drop k (x ∷ xs)) next
    where
      next : suc (n + m) ≡ suc n + m
      next = omega arith

  pub take-add : (m n : ℕ) (xs : List A) → take (m + n) xs ≡ take m xs ++ take n (drop m xs)
  take-add zero n xs = ap (λ k. take k xs) (omega arith)
  take-add (suc m) n [] = take_nil (suc m + n) ∙ sym (take_nil n)
  take-add (suc m) n (x ∷ xs) = ap (λ k. take k (x ∷ xs)) next ∙ ap (◌∷◌ x) (take-add m n xs)
    where
      next : suc m + n ≡ suc (m + n)
      next = omega arith

  -- A buffer with the bytes `c` copied in at `w`, seen from three sides.
  module _ (buf c : List A) (w : ℕ) (fits : w + length c ≤ length buf) where
    abbrev copied : List A
    copied = take w buf ++ (c ++ drop (w + length c) buf)

    length-before : length (take w buf) ≡ w
    length-before = omega (arith, length-take w buf)

    pub take-copied : take (w + length c) copied ≡ take w buf ++ c
    take-copied =
        ap (take (w + length c)) (sym (append_assoc (take w buf) c (drop (w + length c) buf)))
        ∙ take_append (w + length c) (take w buf ++ c) (drop (w + length c) buf)
            (omega (arith, length-append (take w buf) c, length-before))

    pub drop-copied_ge : (r : ℕ) → w + length c ≤ r → drop r copied ≡ drop r buf
    drop-copied_ge r h =
        drop-append_ge r (take w buf) (c ++ drop (w + length c) buf) (omega (arith, length-before))
        ∙ drop-append_ge (r - length (take w buf)) c (drop (w + length c) buf)
            (omega (arith, length-before))
        ∙ drop-drop (r - length (take w buf) - length c) (w + length c) buf
        ∙ ap (λ k. drop k buf) (omega (arith, length-before))

    pub copied_end : w + length c ≡ length buf → copied ≡ take w buf ++ c
    copied_end h =
        ap (λ y. take w buf ++ (c ++ y)) (drop_all (w + length c) buf (omega arith))
        ∙ ap (λ y. take w buf ++ y) (append-nil c)

    pub length-copied : length copied ≡ length buf
    length-copied = omega (
      arith,
      length-append (take w buf) (c ++ drop (w + length c) buf),
      length-append c (drop (w + length c) buf),
      length-before,
      length-drop (w + length c) buf,
    )

    pub drop-copied_le : (r : ℕ) → r ≤ w → drop r (take w buf ++ c) ≡ drop r (take w buf) ++ c
    drop-copied_le r h = drop-append_le r (take w buf) c (omega (arith, length-before))
