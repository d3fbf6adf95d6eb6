-- ===== src/Delivery/Headers/Stripping.antt =====
-- `stripHeader` of cmd/mailscript/proxy.go: the header of what it returns.
use mailscript.Base.{
  if◌then◌else◌, any, ◌≡◌, refl, Bool, true, false, not, ◌&&◌, List, [], ◌∷◌, ◌++◌, arith,
}
use mailscript.Text
use mailscript.Text.{Bytes}
use mailscript.Text.Lines.{
  AreLines, no_lines, last_part, whole_line, split_after-AreLines, join-cons, split_after-last_part,
  split_after-whole_line, join-split_after,
}
use mailscript.Delivery.Headers.{
  chomp, is_folded, is_field, LineKind, header_end, continuation, dropped, kept, line_kind,
  strip_lines, strip_header,
}

-- The lines before the first empty one.
abbrev pub header_lines : List Bytes → List Bytes
header_lines [] = []
header_lines (line ∷ lines) = if Text.is_empty (chomp line) then [] else line ∷ header_lines lines

-- A line that begins the field, and continues no other.
abbrev pub begins_field : Bytes → Bytes → Bool
begins_field name line = not (is_folded line) && is_field name line

strip_lines-header :
    (name : Bytes) (skipping : Bool) (lines : List Bytes)
    → any (begins_field name) (header_lines (strip_lines name skipping lines)) ≡ false
unfolding strip_lines line_kind
strip_lines-header name skipping [] = refl
strip_lines-header name skipping (line ∷ lines) = ground (
  arith,
  strip_lines-header name skipping lines,
  strip_lines-header name true lines,
  strip_lines-header name false lines,
)

strip_lines-AreLines :
    (name : Bytes) (skipping : Bool) {lines : List Bytes}
    → AreLines lines
    → AreLines (strip_lines name skipping lines)
unfolding strip_lines
strip_lines-AreLines name skipping no_lines = no_lines
strip_lines-AreLines name skipping (last_part l h) = go (line_kind name l) skipping
  where
    go :
        (k : LineKind) (b : Bool)
        → AreLines (elim k [
          | header_end ↦ l ∷ []
          | continuation ↦ if b then [] else l ∷ []
          | dropped ↦ []
          | kept ↦ l ∷ []
        ])
    go header_end b = last_part l h
    go continuation true = no_lines
    go continuation false = last_part l h
    go dropped b = no_lines
    go kept b = last_part l h
strip_lines-AreLines name skipping (whole_line l {ls} h rest) =
    go (line_kind name (l ++ (b'\n' ∷ []))) skipping (strip_lines-AreLines name skipping rest)
      (strip_lines-AreLines name true rest) (strip_lines-AreLines name false rest)
  where
    line : Bytes
    line = l ++ (b'\n' ∷ [])

    go :
        (k : LineKind) (b : Bool) {same skip keep : List Bytes}
        → AreLines same
        → AreLines skip
        → AreLines keep
        → AreLines (elim k [
          | header_end ↦ line ∷ ls
          | continuation ↦ if b then same else line ∷ same
          | dropped ↦ skip
          | kept ↦ line ∷ keep
        ])
    go header_end b m s t = whole_line l h rest
    go continuation true m s t = m
    go continuation false m s t = whole_line l h m
    go dropped b m s t = s
    go kept b m s t = whole_line l h t

header_lines-join :
    {lines : List Bytes}
    → AreLines lines
    → header_lines (Text.split_after b'\n' (Text.join [] lines)) ≡ header_lines lines
unfolding Text.trim_right
header_lines-join no_lines = unfold Text.join Text.split_after in refl
header_lines-join (last_part l h) = unfold Text.join in rw (split_after-last_part l h) refl
header_lines-join (whole_line l {ls} h rest) =
    rw
      (
        join-cons (l ++ (b'\n' ∷ [])) ls,
        split_after-whole_line l (Text.join [] ls) h,
        header_lines-join rest,
      )
      refl

-- No line of the header that is left begins the field, whatever the message is.
pub strip_header-removes :
    (raw name : Bytes)
    → any (begins_field name) (header_lines (Text.split_after b'\n' (strip_header raw name)))
      ≡ false
unfolding strip_header
strip_header-removes raw name =
    rw (header_lines-join (strip_lines-AreLines name false (split_after-AreLines raw)))
      (strip_lines-header name false (Text.split_after b'\n' raw))

strip_lines-unchanged :
    (name : Bytes) (lines : List Bytes)
    → any (begins_field name) (header_lines lines) ≡ false
    → strip_lines name false lines ≡ lines
unfolding strip_lines line_kind
strip_lines-unchanged name [] h = refl
strip_lines-unchanged name (line ∷ lines) h = ground (arith, strip_lines-unchanged name lines)

strip_header-eq_self :
    (raw name : Bytes)
    → any (begins_field name) (header_lines (Text.split_after b'\n' raw)) ≡ false
    → strip_header raw name ≡ raw
unfolding strip_header
strip_header-eq_self raw name h =
    rw (strip_lines-unchanged name (Text.split_after b'\n' raw) h) (join-split_after raw)

-- A message none of whose header lines begins the field is left as it is, and so stripping twice is
-- stripping once.
pub strip_header-unchanged :
    (raw name : Bytes)
    → (any (begins_field name) (header_lines (Text.split_after b'\n' raw)) ≡ false
        → strip_header raw name ≡ raw)
      × (strip_header (strip_header raw name) name ≡ strip_header raw name)
strip_header-unchanged raw name = (
  strip_header-eq_self raw name,
  strip_header-eq_self (strip_header raw name) name (strip_header-removes raw name),
)
