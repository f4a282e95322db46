-- ===== src/Gateway/Limits.antt =====
-- `uploadLimitReader.Read` of core/apigateway/handlers.go, one read at a time, as `io.Copy` calls it.
use Prim.Native.Nat.{min}
use astra_store_xion.Base.{
  ℕ, zero, suc, ◌+◌, ◌-◌, ◌^◌, ◌≤◌, ◌<◌, true, false, Bool-cases, Option, none, some, List, [], ◌∷◌,
  ◌++◌, All, length, take, drop, length-take, length-drop, leb, ◌≡◌, refl, ap, arith, inl, inr,
  if◌then◌else◌,
}
use astra_store_xion.Base.Int64.{Int64, is_neg, lt64, add64, sub64, is_neg_small}
use astra_store_xion.Files.Model.{Err, Reader, file_too_large}
use astra_store_xion.Gateway.Multipart.{too_large_failure, upload_limit_reader}

-- What a read gives: its bytes, what is left, and the error that ends the reader, of which `none` is
-- the end of the file.
pub record Chunk : Type 0 where
  pub bytes : List ℕ
  pub remaining : Int64
  pub rest : Reader
  pub end : Option (Option Err)

-- The room of the buffer, cut to one byte above what is left.
unfoldable pub cut_buffer : ℕ → Int64 → ℕ
cut_buffer size remaining = if lt64 (add64 remaining 1) size then add64 remaining 1 else size

-- The wrapped reader gives up to n bytes, and its error once it has none.
abbrev pub read_bytes : ℕ → Int64 → Reader → Chunk
read_bytes n remaining r = record {
  bytes = take n r.bytes;
  remaining = sub64 remaining (length (take n r.bytes));
  rest = record r { bytes = drop n r.bytes };
  end = if leb (length r.bytes) 0 then some (too_large_failure r.failure) else none;
}

abbrev pub passed : Chunk → Chunk
passed c = record c { end = if is_neg c.remaining then some (some file_too_large) else c.end }

-- A read into a buffer of some size, where the wrapped reader gives at most `grant` bytes.
unfoldable pub limited_read : ℕ → ℕ → Int64 → Reader → Chunk
limited_read size grant remaining r =
    if is_neg remaining
    then record { bytes = []; remaining = remaining; rest = r; end = some (some file_too_large) }
    else passed (read_bytes (min grant (cut_buffer size remaining)) remaining r)

abbrev pub onto : List ℕ → Option Reader → Option Reader
onto bs none = none
onto bs (some r) = some (record r { bytes = bs ++ r.bytes })

abbrev pub ended_by : Chunk → Option (Option Err) → Option Reader → Option Reader
ended_by c (some e) rest = some (record { bytes = c.bytes; failure = e })
ended_by c none rest = onto c.bytes rest

-- All that the reads give, one for each buffer and grant of the list (both at least 1): `none` if
-- the reader has not ended by then.
unfoldable pub read_all : List (ℕ × ℕ) → Int64 → Reader → Option Reader
read_all [] remaining r = none
read_all ((size, grant) ∷ more) remaining r =
    let c = limited_read (suc size) (suc grant) remaining r in
    let rest = read_all more c.remaining c.rest in ended_by c c.end rest

take-all : (n : ℕ) (xs : List ℕ) → length xs ≤ n → (take n xs ≡ xs) × (drop n xs ≡ [])
take-all zero [] p = (refl, refl)
take-all zero (x ∷ xs) p = absurd (omega (arith, p))
take-all (suc n) [] p = (refl, refl)
take-all (suc n) (x ∷ xs) p =
    let rest = take-all n xs (omega (arith, p)) in (ap (◌∷◌ x) rest.0, rest.1)

take-drop : (n : ℕ) (xs : List ℕ) → take n xs ++ drop n xs ≡ xs
take-drop zero xs = refl
take-drop (suc n) [] = refl
take-drop (suc n) (x ∷ xs) = ap (◌∷◌ x) (take-drop n xs)

take-nil : (n : ℕ) → take {A = ℕ} n [] ≡ []
take-nil zero = refl
take-nil (suc n) = refl

take-take-drop : (n m k : ℕ) (xs : List ℕ) → k ≡ n + m → take n xs ++ take m (drop n xs) ≡ take k xs
take-take-drop zero m k xs e = ap (λ i. take i xs) (omega (arith, e))
take-take-drop (suc n) m zero xs e = absurd (omega (arith, e))
take-take-drop (suc n) m (suc k) [] e = take-nil m
take-take-drop (suc n) m (suc k) (x ∷ xs) e =
    ap (◌∷◌ x) (take-take-drop n m k xs (omega (arith, e)))

cut_buffer-bounds :
    (size remaining : ℕ)
    → size < 2 ^ 63
    → remaining < 2 ^ 62
    → 0 < size
    → (0 < cut_buffer size remaining) × (cut_buffer size remaining ≤ remaining + 1)
unfolding cut_buffer lt64 add64
cut_buffer-bounds size remaining p q r = (ground (arith, p, q, r), ground (arith, p, q, r))

above-is_neg :
    (remaining l : ℕ) → remaining < 2 ^ 62 → l ≡ remaining + 1 → is_neg (sub64 remaining l) ≡ true
unfolding is_neg sub64
above-is_neg remaining l p e = ground (arith, p, e)

within-is_neg :
    (remaining l : ℕ) → remaining < 2 ^ 62 → l ≤ remaining → is_neg (sub64 remaining l) ≡ false
unfolding is_neg sub64
within-is_neg remaining l p e = ground (arith, p, e)

sub64-within :
    (remaining l : ℕ) → remaining < 2 ^ 62 → l ≤ remaining → sub64 remaining l ≡ remaining - l
unfolding sub64
sub64-within remaining l p e = omega arith

-- After a read that stays within the limit the rest is limited by what is left.
limit-split :
    (n remaining : ℕ) (r : Reader)
    → length (take n r.bytes) ≤ remaining
    → onto (take n r.bytes) (
        some (
          upload_limit_reader
            (remaining - length (take n r.bytes))
            (record r { bytes = drop n r.bytes })))
      ≡ some (upload_limit_reader remaining r)
unfolding upload_limit_reader
limit-split n remaining r p = elim (Bool-cases (leb (length r.bytes) remaining)) [
  | inl e ↦
      rw (e, rest_short n remaining r p e)
        (ap (λ bs. some (record { bytes = bs; failure = too_large_failure r.failure }))
          (take-drop n r.bytes))
  | inr e ↦
      rw (e, rest_long n remaining r p e)
        (ap (λ bs. some (record { bytes = bs; failure = some file_too_large }))
          (take-take-drop n _ _ r.bytes (sum_long n remaining r p e)))
]
  where
    rest_short :
        (n remaining : ℕ) (r : Reader)
        → length (take n r.bytes) ≤ remaining
        → leb (length r.bytes) remaining ≡ true
        → leb (length (drop n r.bytes)) (remaining - length (take n r.bytes)) ≡ true
    rest_short n remaining r p e =
        ground (arith, p, e, length-take n r.bytes, length-drop n r.bytes)

    rest_long :
        (n remaining : ℕ) (r : Reader)
        → length (take n r.bytes) ≤ remaining
        → leb (length r.bytes) remaining ≡ false
        → leb (length (drop n r.bytes)) (remaining - length (take n r.bytes)) ≡ false
    rest_long n remaining r p e = ground (arith, p, e, length-take n r.bytes, length-drop n r.bytes)

    sum_long :
        (n remaining : ℕ) (r : Reader)
        → length (take n r.bytes) ≤ remaining
        → leb (length r.bytes) remaining ≡ false
        → remaining + 1 ≡ n + (remaining - length (take n r.bytes) + 1)
    sum_long n remaining r p e = ground (arith, p, e, length-take n r.bytes)

module _ (n remaining : ℕ) (r : Reader) (rest : Option Reader) (room : 0 < n)
    (cut : n ≤ remaining + 1) (small : remaining < 2 ^ 62) where
  abbrev one_read : Option Reader
  one_read = let c = passed (read_bytes n remaining r) in ended_by c c.end rest

  -- The reader that is wrapped has ended.
  at_end : leb (length r.bytes) 0 ≡ true → one_read ≡ some (upload_limit_reader remaining r)
  unfolding upload_limit_reader
  at_end e =
      let whole = (take-all n r.bytes (ground (arith, e))).0 in
      let low = within-is_neg remaining (length r.bytes) small (ground (arith, e)) in
      let fits = at_end_fits e in rw (whole, low, e, fits) refl
    where
      at_end_fits : leb (length r.bytes) 0 ≡ true → leb (length r.bytes) remaining ≡ true
      at_end_fits e = ground (arith, e)

  -- The read stays within the limit.
  within_limit :
      leb (length r.bytes) 0 ≡ false
      → length (take n r.bytes) ≤ remaining
      → rest
        ≡ some (
            upload_limit_reader
              (remaining - length (take n r.bytes))
              (record r { bytes = drop n r.bytes }))
      → one_read ≡ some (upload_limit_reader remaining r)
  within_limit e p h =
      let low = within-is_neg remaining (length (take n r.bytes)) small p in
      rw (low, e, h) (limit-split n remaining r p)

  -- The read passes the limit.
  above_limit :
      length (take n r.bytes) ≡ remaining + 1 → one_read ≡ some (upload_limit_reader remaining r)
  unfolding upload_limit_reader
  above_limit e =
      let high = above-is_neg remaining (length (take n r.bytes)) small e in
      rw (high, long e)
        (ap (λ k. some (record { bytes = take k r.bytes; failure = some file_too_large }))
          (exact e))
    where
      long : length (take n r.bytes) ≡ remaining + 1 → leb (length r.bytes) remaining ≡ false
      long e = ground (arith, e, length-take n r.bytes)

      exact : length (take n r.bytes) ≡ remaining + 1 → n ≡ remaining + 1
      exact e = ground (arith, e, cut, length-take n r.bytes)

-- Whatever the sizes of the buffers, below 2 ^ 63, and however few bytes the wrapped reader gives at a
-- time, the reads until the end, of which there is one for each byte and one more, give the bytes and
-- the error of `upload_limit_reader`: all of them, or the limit and one byte and "too large". The
-- limit is below 2 ^ 62.
pub read_all_lem :
    (steps : List (ℕ × ℕ)) (remaining : ℕ) (r : Reader)
    → All (λ s. s.0 + 1 < 2 ^ 63) steps
    → remaining < 2 ^ 62
    → length r.bytes < length steps
    → read_all steps remaining r ≡ some (upload_limit_reader remaining r)
unfolding read_all limited_read
read_all_lem [] remaining r sizes small enough = absurd (omega (arith, enough))
read_all_lem ((size, grant) ∷ more) remaining r sizes small enough =
    let bounds =
      cut_buffer-bounds (suc size) remaining (omega (arith, sizes.0)) small (omega arith) in
    let n = min (suc grant) (cut_buffer (suc size) remaining) in
    let l = length (take n r.bytes) in
    let left : Reader = record r { bytes = drop n r.bytes } in
    let rest = read_all more (sub64 remaining l) left in
    let room : 0 < n = omega (arith, bounds.0) in
    let cut : n ≤ remaining + 1 = omega (arith, bounds.1) in
    let inside = is_neg_small remaining (omega (arith, small)) in
    rw inside (elim (Bool-cases (leb (length r.bytes) 0)) [
      | inl e ↦ at_end n remaining r rest room cut small e
      | inr e ↦ elim (Bool-cases (leb l remaining)) [
        | inl f ↦
            let p : l ≤ remaining = ground (arith, f) in
            let shorter : length (drop n r.bytes) < length more =
              ground (arith, e, room, enough, length-drop n r.bytes) in
            within_limit n remaining r rest room cut small e p (
              rw (sub64-within remaining l small p)
                (read_all_lem more (remaining - l) left sizes.1 (omega (arith, small)) shorter))
        | inr f ↦
            above_limit n remaining r rest room cut small
              (ground (arith, f, cut, length-take n r.bytes))
      ]
    ])
