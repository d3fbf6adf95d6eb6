-- ===== src/Arc/Chain/Soundness.antt =====
-- `VerifyARC` of pkg/authverify/arc.go: what stands behind a pass.
use mailscript.Base.{
  ◌==◌, Bool-cases, length, any, Result-cases, ok, err, ℕ, zero, suc, ◌+◌, ◌<◌, ◌≡◌, subst, ◌≢◌,
  inl, inr, Bool, true, false, Option, none, some, List, [], ◌∷◌, ◌++◌, arith,
}
use mailscript.Text
use mailscript.Text.{Bytes, codes}
use mailscript.Text.Laws.{eq→≡}
use mailscript.Spf.Types.{Resolver}
use mailscript.Dkim.Fields.{Headers, count_header}
use mailscript.Dkim.Tags.{Tags, tag_value, parse_strict_dkim_tags}
use mailscript.Dkim.Key.{Crypto, DkimResult, dkim_pass}
use mailscript.Dkim.Outcome.{SignatureResult}
use mailscript.Arc.Sets.{ArcSets, find_set, collect_sets}
use mailscript.Arc.Seal.{FullSet, header_at, build_arc_seal_input, check_seal_tags, verify_arc_seal}
use mailscript.Arc.Seal.Soundness.{IsSealed, check_seal_tags-IsSealed}
use mailscript.Arc.Chain.{
  SetReason, ArcReason, ArcSetResult, cv_unexpected, full_set, expected_cv, is_arc_name, judge_ams,
  verify_ams, seal_set, verify_set_tags, verify_instance, verify_chain, verify_sets, verify_arc,
}

module _ (crypto : Crypto) (resolver : Resolver) where
  module _ (headers : Headers) (body : Bytes) (now : ℕ) where
    -- What stands behind one set of a chain that passes.
    pub record IsGoodSet (last : Bool) (n : ℕ) (before : List FullSet) (set : FullSet)
        : Type 0 where
      pub tags : Tags
      pub parsed : parse_strict_dkim_tags (header_at headers set.as_at).1 ≡ ok tags
      pub cv : Text.to_lower (tag_value tags (codes "cv")) ≡ expected_cv n
      pub sealed : IsSealed crypto resolver tags (build_arc_seal_input headers before set)
      pub current :
          last ≡ true
          → ((verify_ams crypto resolver headers body now set.ams_at).result ≡ dkim_pass)
            × (any is_arc_name
                  (verify_ams crypto resolver headers body now set.ams_at).headers_signed
                ≡ false)

    -- `left` sets, from instance `n` on, each of them good; the last is the newest.
    abbrev pub IsGoodChain : ArcSets → (left n : ℕ) → List FullSet → Type 0
    IsGoodChain sets zero n before = Unit
    IsGoodChain sets (suc left) n before =
        (set : FullSet) × (full_set (find_set sets n) ≡ some set)
        × IsGoodSet (left == 0) n before set
        × IsGoodChain sets left (n + 1) (before ++ (set ∷ []))

    judge_ams-pass :
        (r : SignatureResult)
        → (judge_ams r).0 ≡ dkim_pass
        → (r.result ≡ dkim_pass) × (any is_arc_name r.headers_signed ≡ false)
    unfolding judge_ams
    judge_ams-pass r h = ground arith

    seal_set-ok :
        (last : Bool) (n : ℕ) (before : List FullSet) (set : FullSet) (detail d : ArcSetResult)
        (judged : DkimResult × SetReason)
        → seal_set crypto resolver headers body now last n before set detail judged ≡ ok d
        → (last ≡ true → judged.0 ≡ dkim_pass)
          × ((verify_arc_seal crypto resolver headers before set).0 ≡ dkim_pass)
    unfolding seal_set
    seal_set-ok last n before set detail d judged h = ground arith

    verify_arc_seal-tags :
        (before : List FullSet) (set : FullSet) (tags : Tags)
        → parse_strict_dkim_tags (header_at headers set.as_at).1 ≡ ok tags
        → (verify_arc_seal crypto resolver headers before set).0 ≡ dkim_pass
        → (check_seal_tags crypto resolver tags (build_arc_seal_input headers before set)).0
          ≡ dkim_pass
    unfolding verify_arc_seal
    verify_arc_seal-tags before set tags e h = ground (arith, e)

    verify_set_tags-IsGoodSet :
        (last : Bool) (n : ℕ) (before : List FullSet) (set : FullSet) (tags : Tags)
        (d : ArcSetResult)
        → parse_strict_dkim_tags (header_at headers set.as_at).1 ≡ ok tags
        → verify_set_tags crypto resolver headers body now last n before set tags ≡ ok d
        → IsGoodSet last n before set
    unfolding verify_set_tags
    verify_set_tags-IsGoodSet last n before set tags d e h =
        elim (Bool-cases (Text.eq (Text.to_lower (tag_value tags (codes "cv"))) (expected_cv n))) [
          | inr w ↦ absurd (ground arith)
          | inl w ↦
              let cv = Text.to_lower (tag_value tags (codes "cv")) in
              let detail : ArcSetResult = record {
                instance_number = n;
                domain = Text.to_lower (tag_value tags (codes "d"));
                selector = tag_value tags (codes "s");
                chain_validation = cv;
                message_signature = none;
                seal = none;
                explanation = cv_unexpected cv;
              } in
              let r = verify_ams crypto resolver headers body now set.ams_at in
              let (a, s) = seal_set-ok last n before set detail d (judge_ams r) (ground arith) in
              record {
                tags = tags;
                parsed = e;
                cv = eq→≡ (Text.to_lower (tag_value tags (codes "cv"))) (expected_cv n) w;
                sealed =
                    check_seal_tags-IsSealed crypto resolver tags
                      (build_arc_seal_input headers before set)
                      (verify_arc_seal-tags before set tags e s);
                current = λ l. judge_ams-pass r (a l);
              }
        ]

    seal_set-err :
        (last : Bool) (n : ℕ) (before : List FullSet) (set : FullSet) (detail : ArcSetResult)
        (judged : DkimResult × SetReason) (v : DkimResult × ArcReason × ArcSetResult)
        → seal_set crypto resolver headers body now last n before set detail judged ≡ err v
        → v.0 ≢ dkim_pass
    unfolding seal_set
    seal_set-err last n before set detail judged v e h = ground arith

    -- A chain that ends at a set does not pass.
    verify_set_tags-err :
        (last : Bool) (n : ℕ) (before : List FullSet) (set : FullSet) (tags : Tags)
        (v : DkimResult × ArcReason × ArcSetResult)
        → verify_set_tags crypto resolver headers body now last n before set tags ≡ err v
        → v.0 ≢ dkim_pass
    unfolding verify_set_tags
    verify_set_tags-err last n before set tags v e h =
        elim (Bool-cases (Text.eq (Text.to_lower (tag_value tags (codes "cv"))) (expected_cv n))) [
          | inr w ↦ ground arith
          | inl w ↦
              let cv = Text.to_lower (tag_value tags (codes "cv")) in
              seal_set-err last n before set
                (record {
                  instance_number = n;
                  domain = Text.to_lower (tag_value tags (codes "d"));
                  selector = tag_value tags (codes "s");
                  chain_validation = cv;
                  message_signature = none;
                  seal = none;
                  explanation = cv_unexpected cv;
                })
                (judge_ams (verify_ams crypto resolver headers body now set.ams_at)) v
                (ground arith) h
        ]

    verify_instance-ok :
        (last : Bool) (n : ℕ) (before : List FullSet) (x : Option FullSet)
        (good : FullSet × ArcSetResult)
        → verify_instance crypto resolver headers body now last n before x ≡ ok good
        → (x ≡ some good.0) × IsGoodSet last n before good.0
    unfolding verify_instance
    verify_instance-ok last n before none good h = absurd (ground arith)
    verify_instance-ok last n before (some set) good h =
        elim (Result-cases (parse_strict_dkim_tags (header_at headers set.as_at).1)) [
          | inr t ↦ absurd (ground (arith, t.1))
          | inl t ↦
              elim (Result-cases
                (verify_set_tags crypto resolver headers body now last n before set t.0)) [
                  | inr v ↦ absurd (ground (arith, t.1, v.1))
                  | inl v ↦
                      let same : set ≡ good.0 = ground (arith, t.1, v.1) in
                      (
                        rw same,
                        subst (IsGoodSet last n before) same
                            (verify_set_tags-IsGoodSet last n before set t.0 v.0 t.1 v.1),
                      )
                ]
        ]

    verify_instance-err :
        (last : Bool) (n : ℕ) (before : List FullSet) (x : Option FullSet)
        (ended : DkimResult × ArcReason × List ArcSetResult)
        → verify_instance crypto resolver headers body now last n before x ≡ err ended
        → ended.0 ≢ dkim_pass
    unfolding verify_instance
    verify_instance-err last n before none ended h = λ p. ground arith
    verify_instance-err last n before (some set) ended h = λ p.
        elim (Result-cases (parse_strict_dkim_tags (header_at headers set.as_at).1)) [
          | inr t ↦ ground (arith, t.1)
          | inl t ↦
              elim (Result-cases
                (verify_set_tags crypto resolver headers body now last n before set t.0)) [
                  | inr v ↦
                      verify_set_tags-err last n before set t.0 v.0 v.1 (ground (arith, t.1, v.1))
                  | inl v ↦ ground (arith, t.1, v.1)
                ]
        ]

    verify_chain-IsGoodChain :
        (sets : ArcSets) (left n : ℕ) (before : List FullSet) (found : List ArcSetResult)
        → (verify_chain crypto resolver headers body now sets left n before found).result
          ≡ dkim_pass
        → IsGoodChain sets left n before
    unfolding verify_chain
    verify_chain-IsGoodChain sets zero n before found h = tt
    verify_chain-IsGoodChain sets (suc left) n before found h =
        elim (Result-cases (
          verify_instance crypto resolver headers body now (left == 0) n before
            (full_set (find_set sets n)))) [
              | inr e ↦ absurd (
                  verify_instance-err (left == 0) n before (full_set (find_set sets n)) e.0 e.1
                    (rw (e.1, verify_chain) at h))
              | inl e ↦
                  let (there, good) =
                    verify_instance-ok (left == 0) n before (full_set (find_set sets n)) e.0 e.1 in
                  (
                    e.0.0,
                    there,
                    good,
                    verify_chain-IsGoodChain sets left (n + 1) (before ++ (e.0.0 ∷ []))
                        (found ++ (e.0.1 ∷ [])) (rw (e.1, verify_chain) at h),
                  )
            ]

    -- The chain passes only if the message has one From field and its ARC fields make sets of the
    -- instances from 1 on, all complete, each with the right cv= and with a seal that the key of its
    -- domain accepts for all that stands before it, and the message signature of the newest set
    -- passes and covers no ARC field.
    pub verify_arc-IsGoodChain :
        (verify_arc crypto resolver headers body now).result ≡ dkim_pass
        → (count_header headers (codes "From") ≡ 1)
          × ((sets : ArcSets) × (collect_sets [] 0 headers ≡ ok sets)
              × (0 < length sets)
              × IsGoodChain sets (length sets) 1 [])
    unfolding verify_arc verify_sets
    verify_arc-IsGoodChain h = elim (Result-cases (collect_sets [] 0 headers)) [
      | inr e ↦ absurd (ground (arith, e.1))
      | inl e ↦ (
        ground (arith, e.1),
        (
          e.0,
          e.1,
          ground (arith, e.1),
          verify_chain-IsGoodChain e.0 (length e.0) 1 [] [] (ground (arith, e.1)),
        ),
      )
    ]
