-- ===== src/Kernel/Chunks.antt =====
-- The chunks of the exact repair partition the context.
use fused_index_top_k.Base.{
  ℕ, zero, suc, ◌+◌, ◌-◌, ◌*◌, ◌%◌, ◌≤◌, ◌<◌, min, ◌≡◌, refl, sym, ap, ◌∙◌, subst, List, [], ◌∷◌,
  length, arith,
}
use fused_index_top_k.Kernel.{
  repair_chunk_elements, ceil_div, Chunk, chunks_from, chunks, num_chunks,
}

-- Chunks that follow each other from an offset to the context's end, numbered from `index` on,
-- none of them empty or larger than the repair workspace.
abbrev pub IsPartition : ℕ → ℕ → ℕ → List Chunk → Type 0
IsPartition index offset context [] = offset ≡ context
IsPartition index offset context (c ∷ cs) =
    (c.logical_offset ≡ offset)
    × (c.chunk_index ≡ index)
    × (0 < c.chunk_elements)
    × (c.chunk_elements ≤ repair_chunk_elements)
    × (c.chunk_elements % 128 ≡ 0)
    × IsPartition (suc index) (offset + c.chunk_elements) context cs

length-chunks_from :
    (rounds offset context : ℕ) → length (chunks_from rounds offset context) ≡ rounds
unfolding chunks_from
length-chunks_from zero offset context = refl
length-chunks_from (suc rounds) offset context =
    ap suc (length-chunks_from rounds (offset + repair_chunk_elements) context)

chunks_from-IsPartition :
    (rounds index context : ℕ)
    → context % 128 ≡ 0
    → index * repair_chunk_elements + rounds * repair_chunk_elements
      < context + repair_chunk_elements
    → context ≤ index * repair_chunk_elements + rounds * repair_chunk_elements
    → 0 < rounds
    → IsPartition index
        (index * repair_chunk_elements)
        context
        (chunks_from rounds (index * repair_chunk_elements) context)
unfolding chunks_from
chunks_from-IsPartition zero index context e p q r = absurd (omega arith)
chunks_from-IsPartition (suc zero) index context e p q r =
    (refl, omega arith, omega arith, omega arith, omega arith, omega arith)
chunks_from-IsPartition (suc (suc rounds)) index context e p q r =
    let step : index * repair_chunk_elements
          + min repair_chunk_elements (context - index * repair_chunk_elements)
        ≡ suc index * repair_chunk_elements =
      omega arith in
    let step' : index * repair_chunk_elements + repair_chunk_elements
        ≡ suc index * repair_chunk_elements =
      omega arith in
    (
      refl,
      omega arith,
      omega arith,
      omega arith,
      omega arith,
      subst
          (λ o. IsPartition (suc index) o context (
            chunks_from (suc rounds) (index * repair_chunk_elements + repair_chunk_elements)
              context))
          (sym step)
          (subst
            (λ o.
              IsPartition (suc index) (suc index * repair_chunk_elements) context
                (chunks_from (suc rounds) o context))
            (sym step')
            (chunks_from-IsPartition (suc rounds) (suc index) context e (omega arith) (omega arith)
              (omega arith))),
    )

-- For a positive context length that is a multiple of 128, the repair chunks follow each other
-- from 0 to the context's end, each numbered by its position, not empty, at most 16384 long and a
-- multiple of 128; and there are as many as rows in the chunk range tensors (`num_chunks`).
pub chunks-IsPartition :
    (context : ℕ)
    → 0 < context
    → context % 128 ≡ 0
    → IsPartition 0 0 context (chunks context) × (length (chunks context) ≡ num_chunks context)
unfolding chunks num_chunks
chunks-IsPartition context p e = (
  chunks_from-IsPartition (ceil_div context repair_chunk_elements) 0 context e (omega arith)
      (omega arith) (omega arith),
  length-chunks_from (ceil_div context repair_chunk_elements) 0 context ∙ omega arith,
)
