-- ===== src/Rules/Fields/Block.antt =====
-- Blocks of header lines with the line endings of RFC 5322, read by `ParseHeaderBlock` of
-- pkg/rules/message.go.
use mailscript.Base.{
  ◌==◌, All, ℕ, ◌≡◌, refl, ap, ◌∙◌, ◌≢◌, false, ◌||◌, List, [], ◌∷◌, ◌++◌, map, arith,
}
use mailscript.Text
use mailscript.Text.{Bytes}
use mailscript.Dkim.Fields.{crlf_to_lf}
use mailscript.Rules.Fields.{
  Field, crlf, split_lines, drop_last_empty, trim_eol, parse_header_block,
}
use mailscript.Rules.Fields.RoundTrip.{trim_right-cons, parse_header_block-raw}

abbrev IsInline : ℕ → Type 0
IsInline c = (c ≢ b'\r') × (c ≢ b'\n')

-- A header line: not empty, and without a carriage return and a line feed.
abbrev pub IsLine : Bytes → Type 0
IsLine l = (Text.is_empty l ≡ false) × All IsInline l

crlf_to_lf-inline : (l : Bytes) → All IsInline l → crlf_to_lf l ≡ l
unfolding crlf_to_lf
crlf_to_lf-inline [] h = refl
crlf_to_lf-inline (c ∷ l) h = rw (crlf_to_lf-inline l h.1) (ground arith)

crlf_to_lf-line :
    (l s : Bytes) → All IsInline l → crlf_to_lf (l ++ (crlf ++ s)) ≡ l ++ (b'\n' ∷ crlf_to_lf s)
unfolding crlf_to_lf
crlf_to_lf-line [] s h = refl
crlf_to_lf-line (c ∷ l) s h = rw (crlf_to_lf-line l s h.1) (ground arith)

crlf_to_lf-join :
    (ls : List Bytes) → All IsLine ls → crlf_to_lf (Text.join crlf ls) ≡ Text.join (b'\n' ∷ []) ls
unfolding Text.join
crlf_to_lf-join [] h = unfold crlf_to_lf in refl
crlf_to_lf-join (l ∷ []) h = crlf_to_lf-inline l h.0.1
crlf_to_lf-join (l ∷ m ∷ ls) h =
    crlf_to_lf-line l (Text.join crlf (m ∷ ls)) h.0.1
    ∙ ap (λ s. l ++ (b'\n' ∷ s)) (crlf_to_lf-join (m ∷ ls) h.1)

split-inline : (l : Bytes) → All IsInline l → Text.split b'\n' l ≡ l ∷ []
unfolding Text.split Text.split_func
split-inline [] h = refl
split-inline (c ∷ l) h = rw (split-inline l h.1) (ground arith)

split-line :
    (l s : Bytes) → All IsInline l → Text.split b'\n' (l ++ (b'\n' ∷ s)) ≡ l ∷ Text.split b'\n' s
unfolding Text.split Text.split_func
split-line [] s h = refl
split-line (c ∷ l) s h = rw (split-line l s h.1) (ground arith)

split-join :
    (l : Bytes) (ls : List Bytes)
    → All IsLine (l ∷ ls)
    → Text.split b'\n' (Text.join (b'\n' ∷ []) (l ∷ ls)) ≡ l ∷ ls
unfolding Text.join
split-join l [] h = split-inline l h.0.1
split-join l (m ∷ ls) h =
    split-line l (Text.join (b'\n' ∷ []) (m ∷ ls)) h.0.1 ∙ ap (λ r. l ∷ r) (split-join m ls h.1)

drop_last_empty-lines : (ls : List Bytes) → All IsLine ls → drop_last_empty ls ≡ ls
unfolding drop_last_empty
drop_last_empty-lines [] h = refl
drop_last_empty-lines ([] ∷ ls) h = cc
drop_last_empty-lines ((c ∷ l) ∷ []) h = refl
drop_last_empty-lines ((c ∷ l) ∷ m ∷ ls) h =
    ap (λ r. (c ∷ l) ∷ r) (drop_last_empty-lines (m ∷ ls) h.1)

join-not_empty :
    (c : ℕ) (l : Bytes) (ls : List Bytes)
    → (d : ℕ) × (s : Bytes) × (Text.join crlf ((c ∷ l) ∷ ls) ≡ d ∷ s)
unfolding Text.join
join-not_empty c l [] = (c, l, refl)
join-not_empty c l (m ∷ ls) = (c, _, refl)

split_lines-cons :
    (s : Bytes)
    → Text.is_empty s ≡ false
    → split_lines s ≡ drop_last_empty (Text.split b'\n' (crlf_to_lf s))
unfolding split_lines
split_lines-cons [] h = cc
split_lines-cons (c ∷ s) h = refl

-- The lines of a block are found again.
pub split_lines-join : (ls : List Bytes) → All IsLine ls → split_lines (Text.join crlf ls) ≡ ls
split_lines-join [] h = unfold split_lines Text.join in refl
split_lines-join ([] ∷ ls) h = cc
split_lines-join ((c ∷ l) ∷ ls) h =
    let some_text = join-not_empty c l ls in
    split_lines-cons (Text.join crlf ((c ∷ l) ∷ ls)) (rw some_text.2 refl)
    ∙ (ap (λ s. drop_last_empty (Text.split b'\n' s)) (crlf_to_lf-join ((c ∷ l) ∷ ls) h)
        ∙ (ap drop_last_empty (split-join (c ∷ l) ls h) ∙ drop_last_empty-lines ((c ∷ l) ∷ ls) h))

trim_eol-inline : (l : Bytes) → All IsInline l → trim_eol l ≡ l
unfolding trim_eol
trim_eol-inline [] h = unfold Text.trim_right Text.trim_left in refl
trim_eol-inline (c ∷ l) h =
    trim_right-cons (λ d. d == b'\r' || d == b'\n') c l (ground arith)
    ∙ ap (λ r. c ∷ r) (trim_eol-inline l h.1)

trimmed_lines : (ls : List Bytes) → All IsLine ls → Text.non_empty (map trim_eol ls) ≡ ls
unfolding Text.non_empty
trimmed_lines [] h = refl
trimmed_lines ([] ∷ ls) h = cc
trimmed_lines ((c ∷ l) ∷ ls) h =
    rw (trim_eol-inline (c ∷ l) h.0.1) (ap (λ r. (c ∷ l) ∷ r) (trimmed_lines ls h.1))

-- A block of header lines, none of them empty and none with a carriage return or a line feed, with
-- CRLF between them, is read into fields whose bytes, joined by CRLF, are the block, however the
-- fields are folded.
pub parse_header_block-join :
    (ls : List Bytes)
    → All IsLine ls
    → Text.join crlf (map Field.raw (parse_header_block (Text.join crlf ls))) ≡ Text.join crlf ls
parse_header_block-join ls h =
    parse_header_block-raw (Text.join crlf ls)
    ∙ ap (Text.join crlf)
        (ap (λ r. Text.non_empty (map trim_eol r)) (split_lines-join ls h) ∙ trimmed_lines ls h)
