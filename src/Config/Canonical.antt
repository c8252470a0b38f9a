-- ===== src/Config/Canonical.antt =====
-- The workload of an accepted configuration.
use fused_index_top_k.Base.{
  ℕ, ◌≤◌, ◌≡◌, refl, ap, subst, String, Bool, true, not, some, List, [], ◌∷◌, ◌++◌, ℤ, ltb, eqb,
  ◌==◌, string_eq, nat_eq, Dict, get, ok, raise_if, >>=-eq-ok, raise_if-eq-ok, returned, arith,
  eq_iff,
}
use fused_index_top_k.Config.{
  Json, Floats, ConfigError, bad_batch_size, not_causal, bad_score_dtype, bad_output_dtype,
  top_k_too_large, CaseShapeConfig, WorkloadConfig, shape_eq,
}
use fused_index_top_k.Config.Read.{mapping, at, read_boolean, string_at, integer_at}
use fused_index_top_k.Graph.Validate.Parts.{>>-ok}
use fused_index_top_k.Config.Workload.{
  exactly, minus_one, explicit_contract, workload_fields, min_of, contexts, resolve_contract,
  to_int, TwoMatrices, read_cases, finish_workload, parse_workload,
}
use fused_index_top_k.Config.Readers.{All, IsMatrix, integer_at-le}
use fused_index_top_k.Config.Matrices.{read_cases-IsMatrix, All-above, All-append}
use fused_index_top_k.Config.Contract.{
  TruncatesMinusOne, resolve_contract-get, string_at-exactly, to_int_minus_one,
}

-- The workload of the fusion contract: two case matrices, one batch, K at most every context, and
-- the fixed types, selection, order, padding, tie policy and causal range.
pub record IsWorkload (w : WorkloadConfig) : Type 0 where
  pub benchmark_matrix : IsMatrix w.benchmark_cases
  pub correctness_matrix : IsMatrix w.correctness_cases
  pub one_batch : w.batch_size ≡ 1
  pub is_causal : w.causal ≡ true
  pub some_top_k : 1 ≤ w.top_k
  pub benchmark_fits : All (λ n. w.top_k ≤ n) (contexts w.benchmark_cases)
  pub correctness_fits : All (λ n. w.top_k ≤ n) (contexts w.correctness_cases)
  pub some_heads : 1 ≤ w.indexer_heads
  pub some_dim : 1 ≤ w.head_dim
  pub q_type : w.q_dtype ≡ "float8_e4m3fn"
  pub kv_type : w.kv_dtype ≡ "float8_e4m3fn"
  pub kv_scale_type : w.kv_scale_dtype ≡ "float32"
  pub weight_type : w.weight_dtype ≡ "float32"
  pub range_type : w.range_dtype ≡ "int32"
  pub score_type : w.score_dtype ≡ "float32"
  pub output_type : w.output_dtype ≡ "int32"
  pub exact_selection : w.selection ≡ "exact"
  pub free_order : w.output_order ≡ "unordered"
  pub padded_with : w.padding_index ≡ ℤ.negsuc 0
  pub threshold_ties : w.tie_policy ≡ "exact_score_threshold"
  pub causal_rows : w.causal_range ≡ "[0,N-Q+q+1)"

contexts-append : (xs ys : List CaseShapeConfig) → contexts (xs ++ ys) ≡ contexts xs ++ contexts ys
contexts-append [] ys = refl
contexts-append (x ∷ xs) ys = ap (λ r. x.context_tokens ∷ r) (contexts-append xs ys)

-- What the checks before the constructor's call say.
checked_number : (n : ℕ) → raise_if (not (eqb n 1)) bad_batch_size ≡ ok tt → n ≡ 1
checked_number n h = ground arith

checked_bool : (b : Bool) → raise_if (not b) not_causal ≡ ok tt → b ≡ true
checked_bool b h = ground arith

pub checked_text :
    (s e : String) (error : ConfigError) → raise_if (not (s == e)) error ≡ ok tt → s ≡ e
checked_text s e error h = ground (arith, eq_iff s e)

module _ {F : Type 0} (fl : Floats F) (law : TruncatesMinusOne fl) where
  -- A field of the contract that is read as a text is the text that the contract fixes.
  contract_text :
      (version : ℕ) (raw resolved : Dict (Json F)) (k e s : String)
      → resolve_contract fl version raw ≡ ok resolved
      → get explicit_contract k ≡ some (exactly e)
      → string_at resolved k ≡ ok s
      → s ≡ e
  contract_text version raw resolved k e s h g read =
      let (v, found, same) = resolve_contract-get fl version raw resolved k (exactly e) h g in
      string_at-exactly fl resolved k s e v found same read

  contract_padding :
      (version : ℕ) (raw resolved : Dict (Json F)) (n : ℤ) (v : Json F)
      → resolve_contract fl version raw ≡ ok resolved
      → at resolved "padding_index" ≡ ok v
      → to_int fl v ≡ ok n
      → n ≡ ℤ.negsuc 0
  unfolding at
  contract_padding version raw resolved n v h g read =
      let (w, found, same) =
        resolve_contract-get fl version raw resolved "padding_index" minus_one h refl in
      to_int_minus_one fl v n law (ground (arith, found, same)) read

  finish_workload-IsWorkload :
      (version : ℕ) (raw resolved : Dict (Json F)) (cases : TwoMatrices)
      → (batch : ℕ) (is_causal : Bool) (score output : String) (k : ℕ) (w : WorkloadConfig)
      → resolve_contract fl version raw ≡ ok resolved
      → IsMatrix cases.0 × IsMatrix cases.1
      → All (λ n. k ≤ n) (contexts cases.0) × All (λ n. k ≤ n) (contexts cases.1)
      → batch ≡ 1
      → is_causal ≡ true
      → score ≡ "float32"
      → output ≡ "int32"
      → 1 ≤ k
      → finish_workload fl cases batch is_causal score output k resolved ≡ ok w
      → IsWorkload w
  unfolding finish_workload
  finish_workload-IsWorkload version raw resolved cases batch is_causal score output k w r matrices
        fits one_batch causal_is score_is output_is one h =
      let is = contract_text version raw resolved in
      let (heads, e1, h1) = >>=-eq-ok (integer_at 1 resolved "indexer_heads") _ h in
      let (dim, e2, h2) = >>=-eq-ok (integer_at 1 resolved "head_dim") _ h1 in
      let (q, e3, h3) = >>=-eq-ok (string_at resolved "q_dtype") _ h2 in
      let (kv, e4, h4) = >>=-eq-ok (string_at resolved "kv_dtype") _ h3 in
      let (scale, e5, h5) = >>=-eq-ok (string_at resolved "kv_scale_dtype") _ h4 in
      let (weight, e6, h6) = >>=-eq-ok (string_at resolved "weight_dtype") _ h5 in
      let (range, e7, h7) = >>=-eq-ok (string_at resolved "range_dtype") _ h6 in
      let (selection, e8, h8) = >>=-eq-ok (string_at resolved "selection") _ h7 in
      let (order, e9, h9) = >>=-eq-ok (string_at resolved "output_order") _ h8 in
      let (v, e10, h10) = >>=-eq-ok (at resolved "padding_index") _ h9 in
      let (padding, e11, h11) = >>=-eq-ok (to_int fl v) _ h10 in
      let (tie, e12, h12) = >>=-eq-ok (string_at resolved "tie_policy") _ h11 in
      let (causal, e13, h13) = >>=-eq-ok (string_at resolved "causal_range") _ h12 in
      returned (λ w. IsWorkload w) h13
        (record {
          benchmark_matrix = matrices.0;
          correctness_matrix = matrices.1;
          one_batch = one_batch;
          is_causal = causal_is;
          some_top_k = one;
          benchmark_fits = fits.0;
          correctness_fits = fits.1;
          some_heads = integer_at-le 1 resolved "indexer_heads" heads e1;
          some_dim = integer_at-le 1 resolved "head_dim" dim e2;
          q_type = is "q_dtype" "float8_e4m3fn" q r refl e3;
          kv_type = is "kv_dtype" "float8_e4m3fn" kv r refl e4;
          kv_scale_type = is "kv_scale_dtype" "float32" scale r refl e5;
          weight_type = is "weight_dtype" "float32" weight r refl e6;
          range_type = is "range_dtype" "int32" range r refl e7;
          score_type = score_is;
          output_type = output_is;
          exact_selection = is "selection" "exact" selection r refl e8;
          free_order = is "output_order" "unordered" order r refl e9;
          padded_with = contract_padding version raw resolved padding v r e10 e11;
          threshold_ties = is "tie_policy" "exact_score_threshold" tie r refl e12;
          causal_rows = is "causal_range" "[0,N-Q+q+1)" causal r refl e13;
        })

  pub parse_workload-IsWorkload :
      (version : ℕ) (value : Json F) (w : WorkloadConfig)
      → parse_workload fl version value ≡ ok w
      → IsWorkload w
  unfolding parse_workload
  parse_workload-IsWorkload version value w h =
      let (raw, _, h1) = >>=-eq-ok (mapping value (workload_fields version)) _ h in
      let (cases, read, h2) = >>=-eq-ok (read_cases version raw) _ h1 in
      let (batch, _, h3) = >>=-eq-ok (integer_at 1 raw "batch_size") _ h2 in
      let (one_batch, h4) = >>-ok (raise_if (not (eqb batch 1)) bad_batch_size) _ h3 in
      let (v, _, h5) = >>=-eq-ok (at raw "causal") _ h4 in
      let (causal, _, h6) = >>=-eq-ok (read_boolean v) _ h5 in
      let (is_causal, h7) = >>-ok (raise_if (not causal) not_causal) _ h6 in
      let (resolved, contract, h8) = >>=-eq-ok (resolve_contract fl version raw) _ h7 in
      let (score, _, h9) = >>=-eq-ok (string_at resolved "score_dtype") _ h8 in
      let (output, _, h10) = >>=-eq-ok (string_at resolved "output_dtype") _ h9 in
      let (is_score, h11) = >>-ok (raise_if (not (score == "float32")) bad_score_dtype) _ h10 in
      let (is_output, h12) = >>-ok (raise_if (not (output == "int32")) bad_output_dtype) _ h11 in
      let (k, one, h13) = >>=-eq-ok (integer_at 1 resolved "top_k") _ h12 in
      let both = cases.0 ++ cases.1 in
      let (fits, h14) = >>-ok (raise_if (ltb (min_of (contexts both)) k) top_k_too_large) _ h13 in
      let test = ltb (min_of (contexts both)) k in
      let above = All-above (contexts both) k (raise_if-eq-ok test top_k_too_large fits) in
      let split =
        All-append (λ n. k ≤ n) (contexts cases.0) (contexts cases.1)
          (subst (All (λ n. k ≤ n)) (contexts-append cases.0 cases.1) above) in
      finish_workload-IsWorkload version raw resolved cases batch causal score output k w contract
        (read_cases-IsMatrix version raw cases read) split (checked_number batch one_batch)
        (checked_bool causal is_causal) (checked_text score "float32" bad_score_dtype is_score)
        (checked_text output "int32" bad_output_dtype is_output)
        (integer_at-le 1 resolved "top_k" k one) h14
