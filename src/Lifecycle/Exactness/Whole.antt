-- ===== src/Lifecycle/Exactness/Whole.antt =====
-- The whole lifecycle of a case.
use fused_index_top_k.Api.{RunMode, PrefillCase}
use fused_index_top_k.Base.{
  ℕ, String, ◌≡◌, sym, ap, ◌∙◌, subst, Bool, true, not, none, some, List, [], ◌∷◌, ◌==◌, string_eq,
  eq_iff, contains, Dict, get, ok, ◌>>=◌, >>=-eq-ok, raise_if, Bool-cases, Option-cases, inl, inr,
  arith,
}
use fused_index_top_k.Graph.Validate.Parts.{>>-ok}
use fused_index_top_k.Lifecycle.{
  FixtureState, OracleState, Plugin, Host, Candidate, CaseLifecycle, create_fixture, create,
  verify_fixtures, verify_input_integrity, build_oracles, prepare_candidate, check_fixtures,
  check_candidate, same_content, content_changed, versions_changed, same_versions,
}
use fused_index_top_k.Lifecycle.Exactness.{Setting, setting, OracleFrom, HasOracles}
use fused_index_top_k.Lifecycle.Exactness.Ends.{
  Accepted, Kept-HasOracles, verify_input_integrity-Intact, build_oracles-HasOracles,
  prepare_candidate-Kept, check_fixtures-Accepted, check_fixtures-Kept,
}

module _ {V W : Type 0} (sort : List ℕ → List ℕ) (finite : ℕ → Bool) (topk : ℕ → List ℕ → List ℕ)
    (host : Host V W) where
  create-HasOracles :
      (case : PrefillCase) (mode : RunMode) (world : W) (s : CaseLifecycle V W)
      → create sort finite topk host case mode world ≡ ok s
      → HasOracles sort finite topk host s
  unfolding create
  create-HasOracles case mode world s h id o is =
      let (a, _, h1) = >>=-eq-ok (create_fixture sort finite topk host case world "A") _ h in
      let (b, _, h2) = >>=-eq-ok (create_fixture sort finite topk host case world "B") _ h1 in
      let (_, h3) = >>-ok (raise_if (a.content_before == b.content_before) same_content) _ h2 in
      let start : CaseLifecycle V W = record {
        case = case;
        mode = mode;
        fixtures = ("A", a) ∷ ("B", b) ∷ [];
        oracles = [];
        candidate = none;
        integrity_checks = [];
        world = world;
      } in
      let same : start ≡ s = ground arith in
      let empty : s.oracles ≡ [] = ap (λ (t : CaseLifecycle V W). t.oracles) (sym same) in
      absurd
        (subst (λ (d : Dict OracleState). get d id ≡ some o → ⊥) (sym empty) (λ e. ground arith) is)

  verify_fixtures-content :
      (world : W) (fixtures : Dict (FixtureState V)) (id : String) (f : FixtureState V)
      → verify_fixtures sort finite topk host world fixtures ≡ ok tt
      → get fixtures id ≡ some f
      → host.content world f.inputs ≡ f.content_before
  unfolding verify_fixtures
  verify_fixtures-content world [] id f h g = absurd (ground arith)
  verify_fixtures-content world ((key, x) ∷ rest) id f h g =
      let test = not (host.content world x.inputs == x.content_before) in
      let (hashed, h1) = >>-ok (raise_if test (content_changed key)) _ h in
      let (_, h2) =
        >>-ok
          (raise_if (not (same_versions (host.versions world x.inputs) x.versions_before))
            (versions_changed key))
          _ h1 in
      elim (Bool-cases (key == id)) [
        | inl here ↦
            let same : x ≡ f = ground arith in
            let equal : host.content world x.inputs ≡ x.content_before =
              ground (arith, eq_iff (host.content world x.inputs) x.content_before) in
            subst (λ (y : FixtureState V). host.content world y.inputs ≡ y.content_before) same
              equal
        | inr there ↦ verify_fixtures-content world rest id f h2 (ground arith)
      ]

  -- What the end of a lifecycle shows for one fixture.
  pub record ExactOn (first checked last : CaseLifecycle V W) (id : String) : Type 0 where
    pub candidate : Candidate V
    pub candidate_is : checked.candidate ≡ some candidate
    pub accepted : Accepted sort finite topk host checked candidate id
    pub oracle_from : OracleFrom sort finite topk host (setting first) id accepted.oracle
    pub same_fixture : get first.fixtures id ≡ some accepted.ran_on.fixture
    pub untouched :
        host.content last.world accepted.ran_on.fixture.inputs
        ≡ accepted.ran_on.fixture.content_before

  -- A lifecycle that creates its fixtures, builds the oracles, prepares a candidate and checks it
  -- on the fixtures of `order` without an error has shown, for every fixture of `order`: the
  -- candidate's graph ran on that fixture's inputs, with the declared artifacts checked; the
  -- comparison accepted its terminal artifact with an oracle that was built from the logits of the
  -- reference's graph on the same inputs; and at the end the content of these inputs is the one
  -- before the reference ran.
  pub check_candidate-ExactOn :
      (case : PrefillCase) (mode : RunMode) (world : W) (reference plugin : Plugin V)
      → (phase : String) (order : List String) (start : ℕ)
      → (first built prepared last : CaseLifecycle V W) (id : String)
      → create sort finite topk host case mode world ≡ ok first
      → build_oracles sort finite topk host reference first ≡ ok built
      → prepare_candidate sort finite topk host plugin built ≡ ok prepared
      → check_candidate sort finite topk host phase order start prepared ≡ ok last
      → contains order id ≡ true
      → ExactOn first prepared last id
  unfolding check_candidate
  check_candidate-ExactOn case mode world reference plugin phase order start first built prepared
        last id created oracles candidate checked m =
      let none_yet = create-HasOracles case mode world first created in
      let (has, same) =
        build_oracles-HasOracles sort finite topk host reference first built oracles none_yet in
      let kept = prepare_candidate-Kept sort finite topk host plugin built prepared candidate in
      let has' = Kept-HasOracles sort finite topk host built prepared kept has in
      let whole : setting prepared ≡ setting first = kept.0 ∙ same in
      elim (Option-cases prepared.candidate) [
        | inl missing ↦ absurd (ground arith)
        | inr (c, is) ↦
            let h : (check_fixtures sort finite topk host c prepared order start
                  >>= verify_input_integrity sort finite topk host phase)
                ≡ ok last =
              ground arith in
            let (after, ran, h1) =
              >>=-eq-ok (check_fixtures sort finite topk host c prepared order start) _ h in
            let intact = verify_input_integrity-Intact sort finite topk host phase after last h1 in
            let accepted =
              check_fixtures-Accepted sort finite topk host c prepared after order start id is ran
                m in
            let unchanged : setting last ≡ setting prepared =
              intact.kept.0
              ∙ check_fixtures-Kept sort finite topk host c prepared after order start ran in
            record {
              candidate = c;
              candidate_is = is;
              accepted = accepted;
              oracle_from =
                  subst (λ (g : Setting V). OracleFrom sort finite topk host g id accepted.oracle)
                    whole (has' id accepted.oracle accepted.oracle_is);
              same_fixture =
                  subst (λ (g : Setting V). get g.2 id ≡ some accepted.ran_on.fixture) whole
                    accepted.ran_on.known;
              untouched =
                  verify_fixtures-content last.world last.fixtures id accepted.ran_on.fixture
                    intact.verified
                    (subst (λ (g : Setting V). get g.2 id ≡ some accepted.ran_on.fixture)
                      (sym unchanged) accepted.ran_on.known);
            }
      ]
