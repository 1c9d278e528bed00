-- ===== src/Storage/IdSlice.antt =====
-- storage/idslice.go: a slice of ids as a nullable JSON text.
use mathlib.Core.Path.{◌≡◌}
use known.Prelude.{
  refl, ap, subst, ◌∙◌, List, [], ◌∷◌, map, Option, none, some, Result, ok, err, wrap, ◌>>=◌,
}
use known.Prelude.Text.{Text}
use known.Model.Types.{Id128}

-- What is used of package encoding/json on lists of strings, and of the ULID library.
pub record IdCodec : Type 0 where
  pub marshal : List Text → Result Text
  pub unmarshal : Text → Result (List Text)
  pub string : Id128 → Text
  pub parse_id : Text → Result Id128

module _ (codec : IdCodec) where
  abbrev some_text : Result Text → Result (Option Text)
  some_text (ok t) = ok (some t)
  some_text (err e) = err e

  unfoldable pub marshal_id_slice : List Id128 → Result (Option Text)
  marshal_id_slice [] = ok none
  marshal_id_slice (id ∷ ids) = some_text (codec.marshal (map codec.string (id ∷ ids)))

  parse_ids : List Text → Result (List Id128)
  parse_ids [] = ok []
  parse_ids (s ∷ ss) = elim (codec.parse_id s) [
    | err e ↦ err (wrap "parse id" e)
    | ok id ↦ elim (parse_ids ss) [ err e ↦ err e | ok ids ↦ ok (id ∷ ids) ]
  ]

  unfoldable pub unmarshal_id_slice : Option Text → Result (List Id128)
  unfolding parse_ids
  unmarshal_id_slice none = ok []
  unmarshal_id_slice (some []) = ok []
  unmarshal_id_slice (some (c ∷ t)) = do ss ← codec.unmarshal (c ∷ t); parse_ids ss

  -- What the libraries document: decoding gives back what was encoded, no encoding of a list is the
  -- empty text, and parsing gives back the id of a text.
  pub record IsLawful : Type 0 where
    pub unmarshal-marshal :
        (ss : List Text) (t : Text) → codec.marshal ss ≡ ok t → codec.unmarshal t ≡ ok ss
    pub marshal-ne : (ss : List Text) → codec.marshal ss ≡ ok [] → ⊥
    pub parse-string : (id : Id128) → codec.parse_id (codec.string id) ≡ ok id

  module _ (laws : IsLawful) where
    parse_ids-strings : (ids : List Id128) → parse_ids (map codec.string ids) ≡ ok ids
    unfolding parse_ids
    parse_ids-strings [] = refl
    parse_ids-strings (id ∷ ids) = rw (laws.parse-string id, parse_ids-strings ids)

    from_text :
        (t : Text) (ss : List Text) (ids : List Id128)
        → codec.unmarshal t ≡ ok ss
        → (t ≡ [] → ⊥)
        → parse_ids ss ≡ ok ids
        → unmarshal_id_slice (some t) ≡ ok ids
    unfolding unmarshal_id_slice
    from_text [] ss ids u n p = absurd (n refl)
    from_text (c ∷ t) ss ids u n p = rw u p

    -- With lawful libraries, a slice of ids that is encoded is decoded to itself.
    pub unmarshal-marshal-id_slice :
        (ids : List Id128) (column : Option Text)
        → marshal_id_slice ids ≡ ok column
        → unmarshal_id_slice column ≡ ok ids
    unfolding marshal_id_slice unmarshal_id_slice
    unmarshal-marshal-id_slice [] none h = refl
    unmarshal-marshal-id_slice [] (some t) h = cc h
    unmarshal-marshal-id_slice (id ∷ ids) column h =
        go (codec.marshal (map codec.string (id ∷ ids))) refl h
      where
        go :
            (r : Result Text)
            → codec.marshal (map codec.string (id ∷ ids)) ≡ r
            → some_text r ≡ ok column
            → unmarshal_id_slice column ≡ ok (id ∷ ids)
        go (err e) m k = cc k
        go (ok t) m k =
            let same : some t ≡ column = cc k in
            subst (λ x. unmarshal_id_slice x ≡ ok (id ∷ ids)) same
              (from_text t (map codec.string (id ∷ ids)) (id ∷ ids)
                (laws.unmarshal-marshal (map codec.string (id ∷ ids)) t m)
                (λ e. laws.marshal-ne (map codec.string (id ∷ ids)) (m ∙ ap ok e))
                (parse_ids-strings (id ∷ ids)))
