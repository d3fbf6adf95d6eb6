-- ===== src/Verify/Report/Words.antt =====
-- The words for the results, of pkg/authverify: none has a space.
use mailscript.Base.{◌≡◌, refl, true}
use mailscript.Text.{codes}
use mailscript.Spf.Types.{
  SpfResult, spf_none, spf_neutral, spf_pass, spf_fail, spf_softfail, spf_temperror, spf_permerror,
}
use mailscript.Dkim.Key.{
  DkimResult, dkim_none, dkim_pass, dkim_fail, dkim_policy, dkim_neutral, dkim_temperror,
  dkim_permerror,
}
use mailscript.Dane.Discovery.{
  DaneResult, dane_none, dane_available, dane_pass, dane_fail, dane_insecure, dane_temperror,
  dane_permerror,
}
use mailscript.Dmarc.Verdict.{
  DmarcResult, dmarc_none, dmarc_pass, dmarc_fail, dmarc_temperror, dmarc_permerror,
}
use mailscript.Verify.Report.{spf_word, dkim_word, dmarc_word, dane_word}
use mailscript.Verify.Report.Parts.{lacks}

pub spf_word-IsWord : (x : SpfResult) → lacks b' ' (spf_word x) ≡ true
unfolding codes
spf_word-IsWord spf_none = refl
spf_word-IsWord spf_neutral = refl
spf_word-IsWord spf_pass = refl
spf_word-IsWord spf_fail = refl
spf_word-IsWord spf_softfail = refl
spf_word-IsWord spf_temperror = refl
spf_word-IsWord spf_permerror = refl

pub dkim_word-IsWord : (x : DkimResult) → lacks b' ' (dkim_word x) ≡ true
unfolding codes
dkim_word-IsWord dkim_none = refl
dkim_word-IsWord dkim_pass = refl
dkim_word-IsWord dkim_fail = refl
dkim_word-IsWord dkim_policy = refl
dkim_word-IsWord dkim_neutral = refl
dkim_word-IsWord dkim_temperror = refl
dkim_word-IsWord dkim_permerror = refl

pub dmarc_word-IsWord : (x : DmarcResult) → lacks b' ' (dmarc_word x) ≡ true
unfolding codes
dmarc_word-IsWord dmarc_none = refl
dmarc_word-IsWord dmarc_pass = refl
dmarc_word-IsWord dmarc_fail = refl
dmarc_word-IsWord dmarc_temperror = refl
dmarc_word-IsWord dmarc_permerror = refl

pub dane_word-IsWord : (x : DaneResult) → lacks b' ' (dane_word x) ≡ true
unfolding codes
dane_word-IsWord dane_none = refl
dane_word-IsWord dane_available = refl
dane_word-IsWord dane_pass = refl
dane_word-IsWord dane_fail = refl
dane_word-IsWord dane_insecure = refl
dane_word-IsWord dane_temperror = refl
dane_word-IsWord dane_permerror = refl
