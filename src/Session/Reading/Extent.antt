-- ===== src/Session/Reading/Extent.antt =====
-- `readSMTPReply` of cmd/mailscript/proxy.go: how far a reply reaches.
use mailscript.Base.{
  ◌==◌, Bool-cases, Option-cases, length, take, length-append, All, ok, ℤ, pos, negsuc, ℕ, ◌≤◌, ◌≡◌,
  refl, sym, ap, ◌∙◌, inl, inr, true, false, ◌||◌, Option, none, some, List, [], ◌∷◌, ◌++◌,
  append_assoc, append-nil, arith,
}
use mailscript.Text
use mailscript.Text.{Bytes}
use mailscript.Text.Lines.{join-cons}
use mailscript.Session.Reading.{
  status_code, line_code, continues, differs, read_reply_from, read_smtp_reply,
}

status_code-bounds :
    (z : Option ℤ) (code : ℕ) → status_code z ≡ some code → (200 ≤ code) × (code ≤ 599)
unfolding status_code
status_code-bounds none code h = cc
status_code-bounds (some (negsuc n)) code h = cc
status_code-bounds (some (pos n)) code h = ground arith

line_code-bounds :
    (line : Bytes) (code : ℕ) → line_code line ≡ some code → (200 ≤ code) × (code ≤ 599)
unfolding line_code
line_code-bounds line code h = ground (
  arith,
  status_code-bounds (Text.atoi (take 3 (Text.trim_right (λ c. c == b'\r' || c == b'\n') line)))
      code,
)

-- The reply takes the lines up to the first that announces no other, all with one code.
pub record IsReply (lines : List Bytes) (full : Bytes) (code : ℕ) (text : Bytes) : Type 0 where
  pub continued : List Bytes
  pub last : Bytes
  pub rest : List Bytes
  pub split : lines ≡ continued ++ (last ∷ rest)
  pub joined : text ≡ full ++ Text.join [] (continued ++ (last ∷ []))
  pub go_on : All (λ l. (continues l ≡ true) × (line_code l ≡ some code)) continued
  pub ends : continues last ≡ false
  pub coded : line_code last ≡ some code
  pub short : length text ≤ 65536

read_reply_from-IsReply :
    (expected : Option ℕ) (full : Bytes) (lines : List Bytes) (code : ℕ) (text : Bytes)
    → read_reply_from expected full lines ≡ ok (code, text)
    → (differs expected code ≡ false) × IsReply lines full code text
unfolding read_reply_from Text.join
read_reply_from-IsReply expected full [] code text h = absurd (ground arith)
read_reply_from-IsReply expected full (line ∷ lines) code text h =
    elim (Option-cases (line_code line)) [
      | inl e ↦ absurd (ground (arith, e))
      | inr e ↦ elim (Bool-cases (continues line)) [
        | inl t ↦
            let more : read_reply_from (some e.0) (full ++ line) lines ≡ ok (code, text) =
              ground (arith, e.1) in
            let (d, r) = read_reply_from-IsReply (some e.0) (full ++ line) lines code text more in
            let same : e.0 ≡ code = ground arith in
            (
              ground (arith, e.1),
              record {
                continued = line ∷ r.continued;
                last = r.last;
                rest = r.rest;
                split = ap (λ ls. line ∷ ls) r.split;
                joined =
                    r.joined
                    ∙ (append_assoc full line (Text.join [] (r.continued ++ (r.last ∷ [])))
                        ∙ ap (λ s. full ++ s)
                            (sym (join-cons line (r.continued ++ (r.last ∷ [])))));
                go_on = ((t, e.1 ∙ ap some same), r.go_on);
                ends = r.ends;
                coded = r.coded;
                short = r.short;
              },
            )
        | inr f ↦
            let same : e.0 ≡ code = ground (arith, e.1) in
            let whole : full ++ line ≡ text = ground (arith, e.1) in
            (
              ground (arith, e.1),
              record {
                continued = [];
                last = line;
                rest = lines;
                split = refl;
                joined =
                    sym whole ∙ ap (λ s. full ++ s) (sym (join-cons line [] ∙ append-nil line));
                go_on = tt;
                ends = f;
                coded = e.1 ∙ ap some same;
                short = ground (arith, e.1, length-append full line, ap length whole);
              },
            )
      ]
    ]

-- A reply that is read is made of the lines up to the first that announces no other line, all of
-- them with its code, which is from 200 to 599, and it is at most 64 KiB long.
pub read_smtp_reply-IsReply :
    (lines : List Bytes) (code : ℕ) (text : Bytes)
    → read_smtp_reply lines ≡ ok (code, text)
    → (200 ≤ code) × (code ≤ 599) × IsReply lines [] code text
unfolding read_smtp_reply
read_smtp_reply-IsReply lines code text h =
    let r = (read_reply_from-IsReply none [] lines code text h).1 in
    let b = line_code-bounds r.last code r.coded in (b.0, b.1, r)
