-- ===== src/Forward/Lines.antt =====
-- What a tail sends of a file that grows (internal/forward/forward.go).
use omni_logging.Common.{
  ℕ, zero, suc, ◌+◌, ◌≤◌, ◌≡◌, refl, sym, ap, ◌∙◌, false, some, List, [], ◌∷◌, ◌++◌, append-nil,
  append_assoc, arith, if-elim, Bool-cases, inl, inr, ◌==◌, Bytes, length, length-append, drop,
  drop-append_le, length-drop, All, All-append,
}
use native.Mathlib.Nat.{zero-add, add-zero, suc-add, add_assoc}
use omni_logging.Forward.Tailing.{
  Tail, Poll, trim_line, emit, scan_lines, read_lines, same_file, located, read_opened, poll_found,
  poll_on, poll,
}

-- No line ends in these bytes.
abbrev IsPartial : Bytes → Type 0
IsPartial = All (λ c. (c == 10) ≡ false)

-- What was read of a line before is read as if it stood before the rest.
scan_behind :
    (cur pre rest : Bytes)
    → IsPartial pre
    → scan_lines cur (pre ++ rest) ≡ scan_lines (cur ++ pre) rest
unfolding scan_lines
scan_behind cur [] rest h = ap (λ x. scan_lines x rest) (sym (append-nil cur))
scan_behind cur (c ∷ pre) rest (h, hs) = rw h (
    scan_behind (cur ++ c ∷ []) pre rest hs
    ∙ ap (λ x. scan_lines x rest) (append_assoc cur (c ∷ []) pre))

-- The two parts of a scan.
joined : List Bytes × ℕ → List Bytes × ℕ → List Bytes × ℕ
joined (xs, n) (ys, m) = (xs ++ ys, n + m)

joined-none : (x : List Bytes × ℕ) → joined ([], 0) x ≡ x
unfolding joined
joined-none (xs, n) = λ i. (xs, zero-add n i)

joined-cons :
    (e : List Bytes) (k : ℕ) (x y : List Bytes × ℕ)
    → joined (e ++ x.0, k + x.1) y ≡ (e ++ (joined x y).0, k + (joined x y).1)
unfolding joined
joined-cons e k (xs, n) (ys, m) = λ i. (append_assoc e xs ys i, add_assoc k n m i)

drop_past : (pre rest : Bytes) (n : ℕ) → drop (length pre + n) (pre ++ rest) ≡ drop n rest
drop_past [] rest n = ap (λ k. drop k rest) (zero-add n)
drop_past (c ∷ pre) rest n =
    ap (λ k. drop k (c ∷ pre ++ rest)) (suc-add (length pre) n) ∙ drop_past pre rest n

-- A line behind what was read before: the rest of it is read from its own start.
line_past :
    (cur a b : Bytes) (c n : ℕ)
    → drop (length (cur ++ c ∷ []) + n) ((cur ++ c ∷ a) ++ b) ≡ drop n (a ++ b)
line_past cur a b c n =
    ap (λ t. drop (length (cur ++ c ∷ []) + n) t)
      (ap (λ t. t ++ b) (sym (append_assoc cur (c ∷ []) a)) ∙ append_assoc (cur ++ c ∷ []) a b)
    ∙ drop_past (cur ++ c ∷ []) (a ++ b) n

scan-append :
    (cur a b : Bytes)
    → IsPartial cur
    → scan_lines cur (a ++ b)
      ≡ joined (scan_lines cur a) (scan_lines [] (drop (scan_lines cur a).1 ((cur ++ a) ++ b)))
unfolding scan_lines
scan-append cur [] b h =
    sym (scan_behind [] cur b h)
    ∙ ap (λ t. scan_lines [] (t ++ b)) (sym (append-nil cur))
    ∙ sym (joined-none (scan_lines [] ((cur ++ []) ++ b)))
scan-append cur (c ∷ a) b h = elim (Bool-cases (c == 10)) [
  | inl e ↦
      let s : List Bytes × ℕ = scan_lines [] a in
      let l : List Bytes = emit (trim_line (cur ++ c ∷ [])) in
      let k : ℕ = length (cur ++ c ∷ []) in
      rw e (
        ap (λ (x : List Bytes × ℕ). (l ++ x.0, k + x.1)) (scan-append [] a b tt)
        ∙ sym (joined-cons l k s (scan_lines [] (drop s.1 (a ++ b))))
        ∙ ap (λ t. joined (l ++ s.0, k + s.1) (scan_lines [] t)) (sym (line_past cur a b c s.1)))
  | inr e ↦ rw e (
      scan-append (cur ++ c ∷ []) a b (All-append _ cur (c ∷ []) h (e, tt))
      ∙ ap
          (λ t.
            joined (scan_lines (cur ++ c ∷ []) a)
              (scan_lines [] (drop (scan_lines (cur ++ c ∷ []) a).1 (t ++ b))))
          (append_assoc cur (c ∷ []) a))
]

drop_none : (n : ℕ) → drop {A = ℕ} n [] ≡ []
drop_none zero = refl
drop_none (suc n) = refl

drop_end : (n : ℕ) (xs : Bytes) → n ≡ length xs → drop n xs ≡ []
drop_end zero [] h = refl
drop_end zero (x ∷ xs) h = absurd (omega arith)
drop_end (suc n) [] h = refl
drop_end (suc n) (x ∷ xs) h = drop_end n xs (omega arith)

drop-drop : (m n : ℕ) (xs : Bytes) → drop n (drop m xs) ≡ drop (m + n) xs
drop-drop zero n xs = ap (λ k. drop k xs) (sym (zero-add n))
drop-drop (suc m) n (x ∷ xs) = drop-drop m n xs ∙ sym (ap (λ k. drop k (x ∷ xs)) (suc-add m n))
drop-drop (suc m) n [] = drop_none n ∙ sym (drop_none (suc m + n))

scan_within : (cur a : Bytes) → (scan_lines cur a).1 ≤ length cur + length a
unfolding scan_lines
scan_within cur [] = omega arith
scan_within cur (c ∷ a) =
    if-elim (λ (r : List Bytes × ℕ). r.1 ≤ length cur + length (c ∷ a)) (c == 10)
      (λ _. omega (arith, scan_within [] a, length-append cur (c ∷ [])))
      (λ _. omega (arith, scan_within (cur ++ c ∷ []) a, length-append cur (c ∷ [])))

-- A second reading behind a first.
abbrev pub followed : Tail × List Bytes → (Tail → Tail × List Bytes) → Tail × List Bytes
followed (t, xs) f = ((f t).0, xs ++ (f t).1)

abbrev pub tail_at : ℕ → ℕ → Tail
tail_at identity offset = record { offset = offset; known = some identity }

read_again :
    (identity offset : ℕ) (a b : Bytes)
    → offset ≤ length a
    → followed (read_lines (tail_at identity offset) a) (λ t. read_lines t (a ++ b))
      ≡ read_lines (tail_at identity offset) (a ++ b)
unfolding read_lines joined
read_again identity offset a b h =
    let s : List Bytes × ℕ = scan_lines [] (drop offset a) in
    let whole : List Bytes × ℕ = scan_lines [] (drop (offset + s.1) (a ++ b)) in
    (λ i. (tail_at identity (add_assoc offset s.1 whole.1 i), s.0 ++ whole.0))
    ∙ ap (λ (r : List Bytes × ℕ). (tail_at identity (offset + r.1), r.0))
        (sym (
          ap (λ t. scan_lines [] t) (drop-append_le offset a b h)
          ∙ scan-append [] (drop offset a) b tt
          ∙ ap (λ t. joined s (scan_lines [] t))
              (ap (drop s.1) (sym (drop-append_le offset a b h)) ∙ drop-drop offset s.1 (a ++ b))))

located_same :
    (identity offset size : ℕ)
    → offset ≤ size
    → located (tail_at identity offset) (record { identity = identity; size = size })
      ≡ tail_at identity offset
unfolding located same_file
located_same identity offset size h = ground arith

-- A poll that finds a file of that size, and reads it to the end that it has by then.
abbrev pub grown : ℕ → ℕ → Bytes → Poll
grown identity size content = record {
  stat = some (record { identity = identity; size = size });
  content = some content;
}

read_end :
    (identity offset : ℕ) (c : Bytes)
    → offset ≡ length c
    → read_lines (tail_at identity offset) c ≡ (tail_at identity offset, [])
unfolding read_lines scan_lines
read_end identity offset c h =
    ap (λ (r : List Bytes × ℕ). (tail_at identity (offset + r.1), r.0))
      (ap (λ t. scan_lines [] t) (drop_end offset c h))
    ∙ (λ i. (tail_at identity (add-zero offset i), []))

-- A poll of the same file that is as long as what is read of it.
poll_whole :
    (identity offset : ℕ) (c : Bytes)
    → offset ≤ length c
    → poll (tail_at identity offset) (grown identity (length c) c)
      ≡ read_lines (tail_at identity offset) c
unfolding poll poll_on poll_found read_opened
poll_whole identity offset c h =
    ap (λ t. poll_found t (record { identity = identity; size = length c }) (some c))
      (located_same identity offset (length c) h)
    ∙ if-elim (λ (r : Tail × List Bytes). r ≡ read_lines (tail_at identity offset) c)
        (length c == offset) (λ e. sym (read_end identity offset c (grind (arith, e)))) (λ _. refl)

polls_again :
    (identity offset : ℕ) (a b : Bytes)
    → offset ≤ length a
    → followed
        (read_lines (tail_at identity offset) a)
        (λ t. poll t (grown identity (length (a ++ b)) (a ++ b)))
      ≡ poll (tail_at identity offset) (grown identity (length (a ++ b)) (a ++ b))
unfolding read_lines
polls_again identity offset a b h =
    let s : List Bytes × ℕ = scan_lines [] (drop offset a) in
    let low : offset + s.1 ≤ length (a ++ b) =
      omega (arith, scan_within [] (drop offset a), length-drop offset a, length-append a b) in
    ap (λ (r : Tail × List Bytes). (r.0, s.0 ++ r.1))
      (poll_whole identity (offset + s.1) (a ++ b) low)
    ∙ read_again identity offset a b h
    ∙ sym (poll_whole identity offset (a ++ b) (omega (arith, length-append a b)))

-- Two polls of a file that grows in between send together what one poll of it at its end would have sent, and
-- leave the tail where that leaves it: no line is lost, sent twice or cut in two, wherever the writer stands
-- when the first poll reads. The first poll may read more than the size that it saw.
pub poll-followed :
    (identity offset size : ℕ) (a b : Bytes)
    → offset ≤ size
    → size ≤ length a
    → followed
        (poll (tail_at identity offset) (grown identity size a))
        (λ t. poll t (grown identity (length (a ++ b)) (a ++ b)))
      ≡ poll (tail_at identity offset) (grown identity (length (a ++ b)) (a ++ b))
unfolding poll poll_on poll_found read_opened
poll-followed identity offset size a b low high =
    let f : Tail → Tail × List Bytes = λ t. poll t (grown identity (length (a ++ b)) (a ++ b)) in
    ap (λ t. followed (poll_found t (record { identity = identity; size = size }) (some a)) f)
      (located_same identity offset size low)
    ∙ if-elim (λ (r : Tail × List Bytes). followed r f ≡ f (tail_at identity offset))
        (size == offset) (λ _. refl) (λ _. polls_again identity offset a b (omega arith))
