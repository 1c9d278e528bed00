-- ===== src/Sqlite/Vec.antt =====
-- storage/sqlite/vec.go: embeddings as blobs, and the distances. A float32 is its bit pattern, and
-- `widen` is the conversion to float64; `sqrt` is math.Sqrt.
pub mod RoundTrip
use known.Prelude.{
  ℕ, zero, ◌+◌, ◌*◌, ◌/◌, ◌%◌, Bool, true, false, List, [], ◌∷◌, ◌++◌, if◌then◌else◌,
}
use known.Prelude.Float.{Float32, Float64, FloatOps}

-- binary.LittleEndian.PutUint32
unfoldable pub put_uint32 : ℕ → List ℕ
put_uint32 n = n % 256 ∷ n / 256 % 256 ∷ n / 65_536 % 256 ∷ n / 16_777_216 % 256 ∷ []

-- binary.LittleEndian.Uint32
abbrev pub uint32 : ℕ → ℕ → ℕ → ℕ → ℕ
uint32 a b c d = a + b * 256 + c * 65_536 + d * 16_777_216

unfoldable pub serialize_float32 : List Float32 → List ℕ
unfolding put_uint32
serialize_float32 [] = []
serialize_float32 (f ∷ v) = put_uint32 f ++ serialize_float32 v

-- A blob of which up to three bytes are left over: these are not read.
unfoldable pub deserialize_float32 : List ℕ → List Float32
deserialize_float32 [] = []
deserialize_float32 (a ∷ []) = []
deserialize_float32 (a ∷ b ∷ []) = []
deserialize_float32 (a ∷ b ∷ c ∷ []) = []
deserialize_float32 (a ∷ b ∷ c ∷ d ∷ rest) = uint32 a b c d ∷ deserialize_float32 rest

-- The float operations that the distances call besides those of `FloatOps`.
pub record VectorOps : Type 0 where
  pub ops : FloatOps
  pub widen : Float32 → Float64
  pub sqrt : Float64 → Float64

module _ (v : VectorOps) where
  open v.ops use {add, sub, mul, div, eq, neg, of_int}

  -- The sums of the loop of cosineDistance: dot, normA and normB. Both vectors have one length.
  pub cosine_sums :
      List Float32 → List Float32 → Float64 → Float64 → Float64 → Float64 × Float64 × Float64
  cosine_sums [] bs dot norm_a norm_b = (dot, norm_a, norm_b)
  cosine_sums (a ∷ as') [] dot norm_a norm_b = (dot, norm_a, norm_b)
  cosine_sums (a ∷ as') (b ∷ bs) dot norm_a norm_b =
      let ai = v.widen a in
      let bi = v.widen b in
      cosine_sums as' bs (add dot (mul ai bi)) (add norm_a (mul ai ai)) (add norm_b (mul bi bi))

  from_sums : Float64 × Float64 × Float64 → Float64
  from_sums (dot, norm_a, norm_b) =
      let denom = mul (v.sqrt norm_a) (v.sqrt norm_b) in
      if eq denom (of_int 0) then of_int 2 else sub (of_int 1) (div dot denom)

  unfoldable pub cosine_distance : List Float32 → List Float32 → Float64
  unfolding from_sums cosine_sums
  cosine_distance a b = from_sums (cosine_sums a b (of_int 0) (of_int 0) (of_int 0))

  pub square_sum : List Float32 → List Float32 → Float64 → Float64
  square_sum [] bs sum = sum
  square_sum (a ∷ as') [] sum = sum
  square_sum (a ∷ as') (b ∷ bs) sum =
      let d = sub (v.widen a) (v.widen b) in square_sum as' bs (add sum (mul d d))

  unfoldable pub l2_distance : List Float32 → List Float32 → Float64
  unfolding square_sum
  l2_distance a b = v.sqrt (square_sum a b (of_int 0))

  pub dot_sum : List Float32 → List Float32 → Float64 → Float64
  dot_sum [] bs dot = dot
  dot_sum (a ∷ as') [] dot = dot
  dot_sum (a ∷ as') (b ∷ bs) dot = dot_sum as' bs (add dot (mul (v.widen a) (v.widen b)))

  unfoldable pub inner_product_distance : List Float32 → List Float32 → Float64
  unfolding dot_sum
  inner_product_distance a b = neg (dot_sum a b (of_int 0))
