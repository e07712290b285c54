-- ===== src/Integrations/Shell/Capture.antt =====
-- What a bounded reader keeps of a child's output.
use tito_os.Prelude.{
  ℕ, zero, suc, ◌+◌, ◌-◌, ◌≤◌, List, [], ◌∷◌, ◌++◌, ◌≡◌, refl, sym, ap, ◌∙◌, leb, length, take,
  arith, append-nil, append_assoc, length-append, Bool-cases, inl, inr,
}
use tito_os.Integrations.Shell.{Reader, fresh_reader, keep, read_all, joined, reader_text, written}

module _ {A : Type 0} where
  joined-append :
      (chunks : List (List A)) (chunk : List A)
      → joined (chunks ++ chunk ∷ []) ≡ joined chunks ++ chunk
  unfolding joined
  joined-append [] chunk = append-nil chunk
  joined-append (c ∷ chunks) chunk =
      ap (λ x. c ++ x) (joined-append chunks chunk) ∙ sym (append_assoc c (joined chunks) chunk)

  take-append_take : (n : ℕ) (xs ys : List A) → take n (take n xs ++ ys) ≡ take n (xs ++ ys)
  take-append_take zero xs ys = refl
  take-append_take (suc n) [] ys = refl
  take-append_take (suc n) (x ∷ xs) ys = ap (◌∷◌ x) (take-append_take n xs ys)

  take-append_left :
      (n : ℕ) (xs ys : List A) → length xs ≤ n → take n (xs ++ ys) ≡ xs ++ take (n - length xs) ys
  take-append_left n [] ys h = ap (λ m. take m ys) (less_zero n)
    where
      less_zero : (n : ℕ) → n ≡ n - 0
      less_zero n = omega arith
  take-append_left zero (x ∷ xs) ys h = absurd (omega arith)
  take-append_left (suc n) (x ∷ xs) ys h =
      let less : n - length xs ≡ suc n - suc (length xs) = omega arith in
      ap (◌∷◌ x) (take-append_left n xs ys (omega arith) ∙ ap (λ m. xs ++ take m ys) less)

  pub length-take : (n : ℕ) (xs : List A) → length (take n xs) ≤ n
  length-take zero xs = omega arith
  length-take (suc n) [] = omega arith
  length-take (suc n) (x ∷ xs) = omega (arith, length-take n xs)

  -- the count is that of what was kept, and it is within the limit
  record IsCounted (r : Reader A) : Type 0 where
    pub counted : r.kept ≡ length (reader_text r)
    pub bounded : length (reader_text r) ≤ r.limit

  text-keep :
      (chunk : List A) (r : Reader A)
      → reader_text (keep chunk r) ≡ reader_text r ++ take (r.limit - r.kept) chunk
  unfolding keep reader_text
  text-keep chunk r = elim (Bool-cases (leb 1 (r.limit - r.kept))) [
    | inl some_room ↦ rw some_room (joined-append r.chunks (take (r.limit - r.kept) chunk))
    | inr full ↦
        let none_left : 0 ≡ r.limit - r.kept = ground arith in
        rw full
          (sym (append-nil (joined r.chunks)) ∙ ap (λ n. joined r.chunks ++ take n chunk) none_left)
  ]

  limit-keep : (chunk : List A) (r : Reader A) → (keep chunk r).limit ≡ r.limit
  unfolding keep
  limit-keep chunk r = ground arith

  kept-keep :
      (chunk : List A) (r : Reader A)
      → (keep chunk r).kept ≡ r.kept + length (take (r.limit - r.kept) chunk)
  unfolding keep
  kept-keep chunk r = ground (arith, length-take (r.limit - r.kept) chunk)

  keep-IsCounted : (chunk : List A) (r : Reader A) → IsCounted r → IsCounted (keep chunk r)
  keep-IsCounted chunk r c =
      let part = take (r.limit - r.kept) chunk in
      let size : length (reader_text (keep chunk r)) ≡ length (reader_text r) + length part =
        ap length (text-keep chunk r) ∙ length-append (reader_text r) part in
      record {
        counted = omega (arith, size, kept-keep chunk r, c.counted);
        bounded = omega (
          arith,
          size,
          limit-keep chunk r,
          c.counted,
          c.bounded,
          length-take (r.limit - r.kept) chunk,
        );
      }

  take-nil : (n : ℕ) → take {A = A} n [] ≡ []
  take-nil zero = refl
  take-nil (suc n) = refl

  take_all : (n : ℕ) (xs : List A) → length xs ≤ n → take n (xs ++ []) ≡ xs
  take_all n xs h =
      take-append_left n xs [] h ∙ ap (λ ys. xs ++ ys) (take-nil (n - length xs)) ∙ append-nil xs

  take_room :
      (limit : ℕ) (kept chunk more : List A)
      → length kept ≤ limit
      → take limit ((kept ++ take (limit - length kept) chunk) ++ more)
        ≡ take limit (kept ++ (chunk ++ more))
  take_room limit kept chunk more h =
      ap (take limit) (append_assoc kept (take (limit - length kept) chunk) more)
      ∙ take-append_left limit kept (take (limit - length kept) chunk ++ more) h
      ∙ ap (λ x. kept ++ x) (take-append_take (limit - length kept) chunk more)
      ∙ sym (take-append_left limit kept (chunk ++ more) h)

  text_step :
      (r : Reader A) (chunk more : List A)
      → IsCounted r
      → take (keep chunk r).limit (reader_text (keep chunk r) ++ more)
        ≡ take r.limit (reader_text r ++ (chunk ++ more))
  unfolding reader_text
  text_step r chunk more c =
      rw (limit-keep chunk r, text-keep chunk r, c.counted)
        (take_room r.limit (reader_text r) chunk more c.bounded)

  text-read_all :
      (chunks : List (List A)) (r : Reader A)
      → IsCounted r
      → reader_text (read_all chunks r) ≡ take r.limit (reader_text r ++ written chunks)
  unfolding read_all written
  text-read_all [] r c = sym (take_all r.limit (reader_text r) c.bounded)
  text-read_all ([] ∷ chunks) r c = sym (take_all r.limit (reader_text r) c.bounded)
  text-read_all ((x ∷ xs) ∷ chunks) r c =
      text-read_all chunks (keep (x ∷ xs) r) (keep-IsCounted (x ∷ xs) r c)
      ∙ text_step r (x ∷ xs) (written chunks) c

  fresh-IsCounted : (limit : ℕ) → IsCounted (fresh_reader limit)
  unfolding reader_text joined
  fresh-IsCounted limit = record { counted = refl; bounded = omega arith }

  -- Reading a child's output to its end captures what it wrote, cut at the limit: as many characters
  -- as the limit says and no more, from the beginning, in whatever pieces the reads give them.
  pub reader_text-read_all :
      (limit : ℕ) (chunks : List (List A))
      → reader_text (read_all chunks (fresh_reader limit)) ≡ take limit (written chunks)
  reader_text-read_all limit chunks =
      text-read_all chunks (fresh_reader limit) (fresh-IsCounted limit)
      ∙ (unfold reader_text joined in refl)
