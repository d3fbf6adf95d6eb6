-- ===== src/Delivery/Wire/Transparency.antt =====
-- `dotStuff` and the reading loop of `handleDATA` of cmd/mailscript/proxy.go, one after the other.
use mailscript.Base.{
  ltb, ◌==◌, if◌then◌else◌, length, any, length-append, take-length, All, ok, ℕ, ◌+◌, ◌-◌, ◌≤◌, ◌≡◌,
  refl, ap, ◌∙◌, ◌≢◌, true, false, List, [], ◌∷◌, ◌++◌, append_assoc, append-nil, arith,
}
use mathlib.Core.List.{reverse-append}
use mailscript.Text
use mailscript.Text.{Bytes}
use mailscript.Delivery.Envelope.{max_message_size}
use mailscript.Delivery.Wire.{
  crlf, max_data_line, stuff_from, dot_stuff, unstuff, is_crlf_line, read_data_from, read_data,
}

-- A byte inside a line.
abbrev pub IsLineByte : ℕ → Type 0
IsLineByte c = (c ≢ b'\r') × (c ≢ b'\n')

-- A line that can be read: it fits, with a dot before it and with its end.
abbrev pub IsLine : Bytes → Type 0
IsLine l = All IsLineByte l × (length l + 3 ≤ max_data_line)

-- The text whose lines have the given contents.
unfoldable pub text_of_lines : List Bytes → Bytes
text_of_lines [] = []
text_of_lines (l ∷ ls) = l ++ (b'\r' ∷ b'\n' ∷ text_of_lines ls)

abbrev stuff_line : Bytes → Bytes
stuff_line [] = []
stuff_line (c ∷ l) = if c == b'.' then b'.' ∷ c ∷ l else c ∷ l

stuff_from-line :
    (l rest : Bytes)
    → All IsLineByte l
    → stuff_from false (l ++ (b'\r' ∷ b'\n' ∷ rest)) ≡ l ++ (b'\r' ∷ b'\n' ∷ stuff_from true rest)
unfolding stuff_from
stuff_from-line [] rest h = refl
stuff_from-line (c ∷ l) rest h = ground (arith, stuff_from-line l rest h.1)

dot_stuff-line :
    (l rest : Bytes)
    → All IsLineByte l
    → stuff_from true (l ++ (b'\r' ∷ b'\n' ∷ rest))
      ≡ stuff_line l ++ (b'\r' ∷ b'\n' ∷ stuff_from true rest)
unfolding stuff_from
dot_stuff-line [] rest h = refl
dot_stuff-line (c ∷ l) rest h = ground (arith, stuff_from-line l rest h.1)

stuff_line-IsLineByte : (l : Bytes) → All IsLineByte l → All IsLineByte (stuff_line l)
stuff_line-IsLineByte [] h = tt
stuff_line-IsLineByte (c ∷ l) h = ground arith

split_after-line :
    (l rest : Bytes)
    → All IsLineByte l
    → Text.split_after b'\n' (l ++ (b'\r' ∷ b'\n' ∷ rest))
      ≡ (l ++ crlf) ∷ Text.split_after b'\n' rest
unfolding Text.split_after
split_after-line [] rest h = refl
split_after-line (c ∷ l) rest h = ground (arith, split_after-line l rest h.1)

no_cr : (l : Bytes) → All IsLineByte l → any (λ c. c == b'\r') l ≡ false
no_cr [] h = refl
no_cr (c ∷ l) h = ground (arith, no_cr l h.1)

has_suffix-crlf : (l : Bytes) → Text.has_suffix crlf (l ++ crlf) ≡ true
unfolding Text.has_suffix
has_suffix-crlf l = rw (reverse-append l crlf) refl

trim_suffix-crlf : (l : Bytes) → Text.trim_suffix crlf (l ++ crlf) ≡ l
unfolding Text.trim_suffix
trim_suffix-crlf l =
    let e : length (l ++ crlf) - 2 ≡ length l = omega (arith, length-append l crlf) in
    rw (has_suffix-crlf l, e, take-length l crlf)

is_crlf_line-crlf : (l : Bytes) → All IsLineByte l → is_crlf_line (l ++ crlf) ≡ true
unfolding is_crlf_line
is_crlf_line-crlf l h = rw (has_suffix-crlf l, trim_suffix-crlf l, no_cr l h)

stuff_line-ne-end :
    (l : Bytes) → All IsLineByte l → Text.eq (stuff_line l ++ crlf) (b'.' ∷ crlf) ≡ false
unfolding Text.eq
stuff_line-ne-end [] h = refl
stuff_line-ne-end (c ∷ []) h = ground arith
stuff_line-ne-end (c ∷ d ∷ l) h = ground arith

unstuff-stuff_line : (l : Bytes) → All IsLineByte l → unstuff (stuff_line l ++ crlf) ≡ l ++ crlf
unstuff-stuff_line [] h = refl
unstuff-stuff_line (c ∷ l) h = ground arith

stuff_line-fits :
    (l : Bytes)
    → length l + 3 ≤ max_data_line
    → ltb max_data_line (length (stuff_line l ++ crlf)) ≡ false
stuff_line-fits [] h = refl
stuff_line-fits (c ∷ l) h = ground (arith, length-append l crlf)

read_data_from-line :
    (acc l : Bytes) (more : List Bytes)
    → IsLine l
    → length acc + length l + 2 ≤ max_message_size
    → read_data_from acc ((stuff_line l ++ crlf) ∷ more) ≡ read_data_from (acc ++ (l ++ crlf)) more
unfolding read_data_from
read_data_from-line acc l more h fits =
    rw
      (
        stuff_line-fits l h.1,
        is_crlf_line-crlf (stuff_line l) (stuff_line-IsLineByte l h.0),
        stuff_line-ne-end l h.0,
        unstuff-stuff_line l h.0,
      )
      (ground (arith, length-append l crlf))

read_data_from-lines :
    (acc : Bytes) (ls : List Bytes)
    → All IsLine ls
    → length acc + length (text_of_lines ls) ≤ max_message_size
    → read_data_from acc
        (Text.split_after b'\n' (stuff_from true (text_of_lines ls) ++ (b'.' ∷ crlf)))
      ≡ ok (acc ++ text_of_lines ls)
unfolding text_of_lines
read_data_from-lines acc [] h fits =
    unfold stuff_from Text.split_after read_data_from is_crlf_line Text.has_suffix Text.has_prefix
      Text.trim_suffix Text.eq in
    rw append-nil
read_data_from-lines acc (l ∷ ls) h fits =
    let size = length-append l crlf in
    let sizes = length-append acc (l ++ crlf) in
    let total = length-append l (b'\r' ∷ b'\n' ∷ text_of_lines ls) in
    rw
      (
        dot_stuff-line l (text_of_lines ls) h.0.0,
        append_assoc (stuff_line l) (b'\r' ∷ b'\n' ∷ stuff_from true (text_of_lines ls))
            (b'.' ∷ crlf),
        split_after-line (stuff_line l) (stuff_from true (text_of_lines ls) ++ (b'.' ∷ crlf))
            (stuff_line-IsLineByte l h.0.0),
        read_data_from-line acc l
            (Text.split_after b'\n' (stuff_from true (text_of_lines ls) ++ (b'.' ∷ crlf))) h.0
            (omega arith),
      )
      (read_data_from-lines (acc ++ (l ++ crlf)) ls h.1 (omega arith)
        ∙ ap ok (
            append_assoc acc (l ++ crlf) (text_of_lines ls)
            ∙ ap (λ s. acc ++ s) (append_assoc l crlf (text_of_lines ls))))

-- A message of at most 50 MiB, whose lines hold no carriage return and no line feed and have at most
-- 65,533 bytes each, is read back by the DATA command from what dot stuffing and the final dot make
-- of it.
pub read_data-dot_stuff :
    (ls : List Bytes)
    → All IsLine ls
    → length (text_of_lines ls) ≤ max_message_size
    → read_data (Text.split_after b'\n' (dot_stuff (text_of_lines ls) ++ (b'.' ∷ crlf)))
      ≡ ok (text_of_lines ls)
unfolding read_data dot_stuff
read_data-dot_stuff ls h fits = read_data_from-lines [] ls h (omega arith)
