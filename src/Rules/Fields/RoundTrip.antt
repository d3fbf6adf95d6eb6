-- ===== src/Rules/Fields/RoundTrip.antt =====
-- What `ParseHeaderBlock` of pkg/rules/message.go keeps of the bytes of the block.
use mailscript.Base.{
  ◌==◌, Bool-cases, Option-cases, length, ℕ, zero, suc, ◌+◌, ◌≡◌, refl, sym, ap, ◌∙◌, inl, inr,
  Bool, true, false, ◌||◌, Option, none, some, List, [], ◌∷◌, ◌++◌, map, reverse, append_assoc,
  append-nil, arith,
}
use mathlib.Core.List.{map-append, reverse-append}
use mailscript.Text
use mailscript.Text.{Bytes}
use mailscript.Rules.Fields.{
  Field, ParseState, crlf, split_lines, trim_eol, flush, continue_field, new_field, begin_field,
  begins_folded, parse_line, parse_lines, parse_header_block,
}

abbrev raws : List Field → List Bytes
raws fields = map Field.raw fields

-- The line, joined behind the bytes that came before it, if it is not empty.
abbrev join_line : Bytes → Bytes → Bytes
join_line text [] = text
join_line [] (c ∷ line) = c ∷ line
join_line (b ∷ text) (c ∷ line) = (b ∷ text) ++ (crlf ++ (c ∷ line))

non_empty-cons :
    (w : Bytes) (ws : List Bytes)
    → Text.non_empty (w ∷ ws) ≡ Text.non_empty (w ∷ []) ++ Text.non_empty ws
unfolding Text.non_empty
non_empty-cons [] ws = refl
non_empty-cons (c ∷ w) ws = refl

-- Two texts that are joined count as one.
join-glue :
    (sep : Bytes) (ws : List Bytes) (v w : Bytes) (us : List Bytes)
    → Text.join sep (ws ++ ((v ++ (sep ++ w)) ∷ us)) ≡ Text.join sep (ws ++ (v ∷ w ∷ us))
unfolding Text.join
join-glue sep [] v w [] = refl
join-glue sep [] v w (u ∷ us) =
    append_assoc v (sep ++ w) _ ∙ ap (λ r. v ++ r) (append_assoc sep w _)
join-glue sep (t ∷ []) v w us = ap (λ r. t ++ (sep ++ r)) (join-glue sep [] v w us)
join-glue sep (t ∷ r ∷ ws) v w us = ap (λ q. t ++ (sep ++ q)) (join-glue sep (r ∷ ws) v w us)

trim_left-snoc :
    (cut : ℕ → Bool) (s : Bytes) (c : ℕ)
    → cut c ≡ false
    → Text.trim_left cut (s ++ (c ∷ [])) ≡ Text.trim_left cut s ++ (c ∷ [])
unfolding Text.trim_left
trim_left-snoc cut [] c h = rw h refl
trim_left-snoc cut (d ∷ s) c h = elim (Bool-cases (cut d)) [
  | inl e ↦ rw e (trim_left-snoc cut s c h)
  | inr e ↦ rw e refl
]

-- A first byte that is not trimmed is kept.
pub trim_right-cons :
    (cut : ℕ → Bool) (c : ℕ) (s : Bytes)
    → cut c ≡ false
    → Text.trim_right cut (c ∷ s) ≡ c ∷ Text.trim_right cut s
unfolding Text.trim_right
trim_right-cons cut c s h =
    ap (λ t. reverse (Text.trim_left cut t)) (reverse-append (c ∷ []) s)
    ∙ (ap reverse (trim_left-snoc cut (reverse s) c h)
        ∙ reverse-append (Text.trim_left cut (reverse s)) (c ∷ []))

-- A line that begins in white space is not empty.
trim_eol-folded :
    (line : Bytes)
    → begins_folded line ≡ true
    → Text.non_empty (trim_eol line ∷ []) ≡ trim_eol line ∷ []
unfolding trim_eol Text.non_empty
trim_eol-folded [] h = cc
trim_eol-folded (c ∷ s) h =
    rw (trim_right-cons (λ d. d == b'\r' || d == b'\n') c s (ground arith)) refl

raws-snoc : (fs : List Field) (f : Field) → raws (fs ++ (f ∷ [])) ≡ raws fs ++ (f.raw ∷ [])
raws-snoc fs f = map-append Field.raw fs (f ∷ [])

new_field-raw : (n : ℕ) (line : Bytes) → (new_field n line).raw ≡ line
unfolding new_field
new_field-raw n line = elim (Option-cases (Text.index_byte b':' line)) [
  | inl e ↦ rw (e, new_field) refl
  | inr (zero, e) ↦ rw (e, new_field) refl
  | inr (suc i, e) ↦ rw (e, new_field) refl
]

begin_field-raws :
    (line : Bytes) (fs : List Field)
    → raws (flush (begin_field line fs)) ≡ raws fs ++ Text.non_empty (line ∷ [])
unfolding flush Text.non_empty
begin_field-raws [] fs = sym (append-nil (raws fs))
begin_field-raws (c ∷ line) fs =
    raws-snoc fs _ ∙ ap (λ r. raws fs ++ (r ∷ [])) (new_field-raw (length fs + 1) (c ∷ line))

raws-append :
    (fs : List Field) (f : Field) (ws : List Bytes)
    → raws (fs ++ (f ∷ [])) ++ ws ≡ raws fs ++ (f.raw ∷ ws)
raws-append fs f ws = ap (λ r. r ++ ws) (raws-snoc fs f) ∙ append_assoc (raws fs) (f.raw ∷ []) ws

begin_field-join :
    (line : Bytes) (hs : List Field) (ws : List Bytes)
    → Text.join crlf (raws (flush (begin_field line hs)) ++ ws)
      ≡ Text.join crlf (raws hs ++ (Text.non_empty (line ∷ []) ++ ws))
begin_field-join line hs ws =
    ap (λ r. Text.join crlf (r ++ ws)) (begin_field-raws line hs)
    ∙ ap (Text.join crlf) (append_assoc (raws hs) (Text.non_empty (line ∷ [])) ws)

continue_field-join :
    (line : Bytes) (f : Field) (hs : List Field) (ws : List Bytes)
    → Text.join crlf
        (raws (flush (record { cur = some (continue_field line f); headers = hs })) ++ ws)
      ≡ Text.join crlf (raws (flush (record { cur = some f; headers = hs })) ++ (line ∷ ws))
unfolding flush continue_field
continue_field-join line f hs ws =
    ap (Text.join crlf) (raws-append hs _ ws)
    ∙ (join-glue crlf (raws hs) f.raw line ws
        ∙ sym (ap (Text.join crlf) (raws-append hs _ (line ∷ ws))))

-- A line adds its text to the texts of the fields, if it has one.
read_line-raws :
    (line : Bytes) (cur : Option Field) (hs : List Field) (ws : List Bytes)
    → let s : ParseState = record { cur = cur; headers = hs } in
      Text.join crlf (raws (flush (parse_line line s)) ++ ws)
      ≡ Text.join crlf (raws (flush s) ++ (Text.non_empty (trim_eol line ∷ []) ++ ws))
unfolding parse_line
read_line-raws line none hs ws = begin_field-join (trim_eol line) hs ws
read_line-raws line (some f) hs ws = elim (Bool-cases (begins_folded line)) [
  | inl e ↦ rw (e, trim_eol-folded line e) (continue_field-join (trim_eol line) f hs ws)
  | inr e ↦
      rw e (begin_field-join (trim_eol line) (flush (record { cur = some f; headers = hs })) ws)
]

parse_lines-raws :
    (ls : List Bytes) (s : ParseState)
    → Text.join crlf (raws (flush (parse_lines ls s)))
      ≡ Text.join crlf (raws (flush s) ++ Text.non_empty (map trim_eol ls))
unfolding parse_lines Text.non_empty
parse_lines-raws [] s = ap (Text.join crlf) (sym (append-nil (raws (flush s))))
parse_lines-raws (l ∷ ls) s =
    parse_lines-raws ls (parse_line l s)
    ∙ (read_line-raws l s.cur s.headers (Text.non_empty (map trim_eol ls))
        ∙ ap (λ r. Text.join crlf (raws (flush s) ++ r))
            (sym (non_empty-cons (trim_eol l) (map trim_eol ls))))

-- The texts of the fields, joined by line endings, are the lines of the block that are not empty,
-- joined by line endings, each without the carriage returns at its end.
pub parse_header_block-raw :
    (block : Bytes)
    → Text.join crlf (map Field.raw (parse_header_block block))
      ≡ Text.join crlf (Text.non_empty (map trim_eol (split_lines block)))
unfolding parse_header_block Text.non_empty flush
parse_header_block-raw block =
    parse_lines-raws (split_lines block) (record { cur = none; headers = [] })
