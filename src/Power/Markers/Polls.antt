-- ===== src/Power/Markers/Polls.antt =====
-- What successive polls of a growing markers file deliver.
use glm5_3_flash_2x_dgx_spar.Prelude.{
  ℕ, suc, ◌+◌, ◌≤◌, ◌≡◌, refl, sym, ap, ap₂, ◌∙◌, subst, true, false, none, some, List, [], ◌∷◌,
  ◌++◌, length, take, drop, ltb, ◌==◌, any, if◌then◌else◌, arith, length-append, drop-append,
  append_assoc, append-nil,
}
use glm5_3_flash_2x_dgx_spar.Text.{Text, split_bytes}
use glm5_3_flash_2x_dgx_spar.Text.Lines.{split_bytes-append}
use glm5_3_flash_2x_dgx_spar.Power.Markers.{
  MarkerFile, rfind_newline, ends_newline, add_label, labels_of, cut_chunk, read_chunk, read_from,
  read_marker_lines, polls,
}

-- a file that does not change during the poll
abbrev pub quiet : List ℕ → MarkerFile
quiet bytes = record { size = some (length bytes); content = some bytes }

-- the file after each of some writes of whole lines
abbrev pub grown : List ℕ → List (List ℕ) → List MarkerFile
grown seen [] = []
grown seen (text ∷ texts) =
    quiet (seen ++ (text ++ 10 ∷ [])) ∷ grown (seen ++ (text ++ 10 ∷ [])) texts

abbrev pub written : List (List ℕ) → List ℕ
written [] = []
written (text ∷ texts) = text ++ 10 ∷ written texts

ends_newline-append : (a : List ℕ) → ends_newline (a ++ 10 ∷ []) ≡ true
unfolding ends_newline
ends_newline-append [] = refl
ends_newline-append (b ∷ []) = refl
ends_newline-append (b ∷ c ∷ a) = ends_newline-append (c ∷ a)

rfind_newline-none : (part : List ℕ) → any (λ b. b == 10) part ≡ false → rfind_newline part ≡ none
unfolding rfind_newline
rfind_newline-none [] h = refl
rfind_newline-none (b ∷ bs) h =
    let other : (b == 10) ≡ false = ground arith in rw (rfind_newline-none bs (ground arith), other)

rfind_newline-append :
    (a part : List ℕ)
    → any (λ b. b == 10) part ≡ false
    → rfind_newline (a ++ 10 ∷ part) ≡ some (length a)
unfolding rfind_newline
rfind_newline-append [] part h = rw (rfind_newline-none part h)
rfind_newline-append (b ∷ a) part h = rw (rfind_newline-append a part h)

ends_newline-last :
    (a : List ℕ) (p : ℕ) (part : List ℕ)
    → any (λ b. b == 10) (p ∷ part) ≡ false
    → ends_newline (a ++ 10 ∷ p ∷ part) ≡ false
unfolding ends_newline
ends_newline-last [] p [] h = ground arith
ends_newline-last [] p (q ∷ part) h = ends_newline-last [] q part (ground arith)
ends_newline-last (b ∷ []) p part h = ends_newline-last [] p part h
ends_newline-last (b ∷ c ∷ a) p part h = ends_newline-last (c ∷ a) p part h

cut_suc :
    (a part : List ℕ)
    → (drop (suc (length a)) (a ++ 10 ∷ part) ≡ part)
      × (take (suc (length a)) (a ++ 10 ∷ part) ≡ a ++ 10 ∷ [])
cut_suc [] part = (refl, refl)
cut_suc (b ∷ a) part = let (dropped, taken) = cut_suc a part in (dropped, ap (λ xs. b ∷ xs) taken)

cut_at :
    (a part : List ℕ)
    → (drop (length a + 1) (a ++ 10 ∷ part) ≡ part)
      × (take (length a + 1) (a ++ 10 ∷ part) ≡ a ++ 10 ∷ [])
cut_at a part =
    let same : suc (length a) ≡ length a + 1 = omega arith in
    subst (λ n. (drop n (a ++ 10 ∷ part) ≡ part) × (take n (a ++ 10 ∷ part) ≡ a ++ 10 ∷ [])) same
      (cut_suc a part)

module _ (decode : List ℕ → Text) where
  add_label-append :
      (l : Text) (xs ys : List Text) → add_label decode l (xs ++ ys) ≡ add_label decode l xs ++ ys
  unfolding add_label
  add_label-append [] xs ys = refl
  add_label-append (c ∷ cs) xs ys = refl

  labels_of-append :
      (xs ys : List (List ℕ))
      → labels_of decode (xs ++ ys) ≡ labels_of decode xs ++ labels_of decode ys
  unfolding labels_of
  labels_of-append [] ys = refl
  labels_of-append (x ∷ xs) ys = rw (labels_of-append xs ys, add_label-append)

  read_from-quiet :
      (seen new : List ℕ)
      → 1 ≤ length new
      → read_from decode (quiet (seen ++ new)) (length (seen ++ new)) (length seen)
        ≡ read_chunk decode new (length seen)
  unfolding read_from
  read_from-quiet seen new h =
      let differs : (length (seen ++ new) == length seen) ≡ false =
        ground (arith, length-append seen new) in
      ap
        (λ b.
          if b
          then ([], length seen)
          else read_chunk decode (drop (length seen) (seen ++ new)) (length seen))
        differs
      ∙ ap (λ c. read_chunk decode c (length seen)) (drop-append (length seen) seen new refl)

  -- a poll of a file that has grown past the offset
  read_marker_lines-quiet :
      (seen new : List ℕ)
      → 1 ≤ length new
      → read_marker_lines decode (quiet (seen ++ new)) (length seen)
        ≡ read_chunk decode new (length seen)
  unfolding read_marker_lines
  read_marker_lines-quiet seen new h =
      let longer : ltb (length (seen ++ new)) (length seen) ≡ false =
        ground (arith, length-append seen new) in
      let file = quiet (seen ++ new) in
      ap (λ b. read_from decode file (length (seen ++ new)) (if b then 0 else length seen)) longer
      ∙ read_from-quiet seen new h

  read_whole :
      (seen text : List ℕ)
      → read_marker_lines decode (quiet (seen ++ (text ++ 10 ∷ []))) (length seen)
        ≡ (labels_of decode (split_bytes (text ++ 10 ∷ [])), length (seen ++ (text ++ 10 ∷ [])))
  unfolding read_chunk
  read_whole seen text =
      read_marker_lines-quiet seen (text ++ 10 ∷ []) (omega (arith, length-append text (10 ∷ [])))
      ∙ rw (ends_newline-append text, length-append seen (text ++ 10 ∷ []))

  no_polls :
      (seen : List ℕ)
      → polls decode (length seen) [] ≡ (labels_of decode (split_bytes []), length (seen ++ []))
  unfolding polls split_bytes labels_of
  no_polls seen = ap (λ n. ([], n)) (ap length (sym (append-nil seen)))

  polls-cons :
      (offset next : ℕ) (file : MarkerFile) (files : List MarkerFile) (lines : List Text)
      → read_marker_lines decode file offset ≡ (lines, next)
      → polls decode offset (file ∷ files)
        ≡ (lines ++ (polls decode next files).0, (polls decode next files).1)
  unfolding polls
  polls-cons offset next file files lines h = rw h

  -- Polls of a file to which whole lines are appended deliver the markers of all the lines, each
  -- once and in order, and end at the end of the file.
  pub polls-written :
      (seen : List ℕ) (texts : List (List ℕ))
      → polls decode (length seen) (grown seen texts)
        ≡ (labels_of decode (split_bytes (written texts)), length (seen ++ written texts))
  polls-written seen [] = no_polls seen
  polls-written seen (text ∷ texts) =
      let line = text ++ 10 ∷ [] in
      polls-cons (length seen) (length (seen ++ line)) (quiet (seen ++ line))
        (grown (seen ++ line) texts) (labels_of decode (split_bytes line)) (read_whole seen text)
      ∙ rw (
        polls-written (seen ++ line) texts,
        split_bytes-append text (written texts),
        labels_of-append (split_bytes line) (split_bytes (written texts)),
        append_assoc seen line (written texts),
        append_assoc text (10 ∷ []) (written texts),
      )

  read_partial :
      (seen text : List ℕ) (p : ℕ) (part : List ℕ)
      → any (λ b. b == 10) (p ∷ part) ≡ false
      → read_marker_lines decode (quiet (seen ++ (text ++ 10 ∷ p ∷ part))) (length seen) ≡ (
        labels_of decode (split_bytes (p ∷ part ++ (text ++ 10 ∷ []))),
        length (seen ++ (text ++ 10 ∷ [])),
      )
  unfolding read_chunk cut_chunk
  read_partial seen text p part h =
      let chunk = text ++ 10 ∷ p ∷ part in
      let (dropped, taken) = cut_at text (p ∷ part) in
      let place : length seen + length text + 1 ≡ length (seen ++ (text ++ 10 ∷ [])) =
        omega (arith, length-append seen (text ++ 10 ∷ []), length-append text (10 ∷ [])) in
      read_marker_lines-quiet seen chunk (omega (arith, length-append text (10 ∷ p ∷ part)))
      ∙ (ap
            (λ b.
              if b
              then (labels_of decode (split_bytes chunk), length seen + length chunk)
              else cut_chunk decode chunk (length seen) (rfind_newline chunk))
            (ends_newline-last text p part h)
          ∙ (ap (cut_chunk decode chunk (length seen)) (rfind_newline-append text (p ∷ part) h)
              ∙ ap₂ (λ bytes n. (labels_of decode (split_bytes bytes), n))
                  (ap₂ (λ xs ys. xs ++ ys) dropped taken) place))

  -- A poll that finds a partial last line puts it before the lines that are complete, and the next
  -- poll delivers it again with its rest.
  pub polls_partial :
      (seen text : List ℕ) (p : ℕ) (part rest : List ℕ)
      → any (λ b. b == 10) (p ∷ part) ≡ false
      → polls decode (length seen) (
          quiet (seen ++ (text ++ 10 ∷ p ∷ part))
          ∷ quiet (seen ++ (text ++ 10 ∷ []) ++ (p ∷ part ++ rest ++ 10 ∷ []))
          ∷ [])
        ≡ (
          labels_of decode (split_bytes (p ∷ part ++ (text ++ 10 ∷ [])))
              ++ labels_of decode (split_bytes (p ∷ part ++ rest ++ 10 ∷ [])),
          length (seen ++ (text ++ 10 ∷ []) ++ (p ∷ part ++ rest ++ 10 ∷ [])),
        )
  polls_partial seen text p part rest h =
      let line = text ++ 10 ∷ [] in
      let later = grown (seen ++ line) ((p ∷ part ++ rest) ∷ []) in
      polls-cons (length seen) (length (seen ++ line)) (quiet (seen ++ (text ++ 10 ∷ p ∷ part)))
        later (labels_of decode (split_bytes (p ∷ part ++ line))) (read_partial seen text p part h)
      ∙ rw (polls-written (seen ++ line) ((p ∷ part ++ rest) ∷ []))
