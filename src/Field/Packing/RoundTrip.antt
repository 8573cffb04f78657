-- ===== src/Field/Packing/RoundTrip.antt =====
-- Packing and unpacking are inverse, and reject exactly the wrong lengths.
use mqom_rs.Base.{
  ◌+◌, ◌/◌, ◌^◌, ◌<◌, U8, List, length, true, false, ◌==◌, arith, ◌≡◌, refl, ap, ◌∙◌, ◌≢◌, lt→ltb,
  ==_iff, Bool-cases, inl, inr,
}
use mqom_rs.Field.Gf16.Element.{Gf16}
use mqom_rs.Field.Packing.{unpack_gf16, pack_gf16}
use mqom_rs.Field.Packing.Laws.{
  halves, packed-halves, length-halves, pack_gf16-eq_packed, unpack_gf16-packed,
  unpack_gf16-eq_halves,
}

-- Packing any elements into a buffer of the right length succeeds, and unpacking the bytes into a
-- buffer of as many elements gives the elements back.
pub unpack_gf16-pack_gf16 :
    (elements : List Gf16) (buffer : List U8) (output : List Gf16)
    → length elements + 1 < 2 ^ 64
    → length buffer ≡ (length elements + 1) / 2
    → length output ≡ length elements
    → ((pack_gf16 elements buffer).0 ≡ true)
      × (unpack_gf16 (pack_gf16 elements buffer).1 output ≡ (true, elements))
unpack_gf16-pack_gf16 elements buffer output fits e f =
    rw (pack_gf16-eq_packed elements buffer fits e)
      (refl, unpack_gf16-packed elements output (omega arith) f)

-- Unpacking bytes into twice as many elements and packing those gives the bytes back.
pub pack_gf16-unpack_gf16 :
    (bytes buffer : List U8) (output : List Gf16)
    → length output + 1 < 2 ^ 64
    → length output ≡ length bytes + length bytes
    → length buffer ≡ length bytes
    → ((unpack_gf16 bytes output).0 ≡ true)
      × (pack_gf16 (unpack_gf16 bytes output).1 buffer ≡ (true, bytes))
pack_gf16-unpack_gf16 bytes buffer output fits e f =
    rw (unpack_gf16-eq_halves bytes output fits e) (
      refl,
      pack_gf16-eq_packed (halves bytes) buffer (omega (arith, length-halves bytes))
            (omega (arith, length-halves bytes))
          ∙ ap (λ l. (true, l)) (packed-halves bytes),
    )

unpack_gf16-rejects :
    (bytes : List U8) (output : List Gf16)
    → length output + 1 < 2 ^ 64
    → length bytes ≢ (length output + 1) / 2
    → unpack_gf16 bytes output ≡ (false, output)
unfolding unpack_gf16
unpack_gf16-rejects bytes output fits ne =
    rw (lt→ltb (length output + 1) (2 ^ 64) fits, unpack_gf16)
      (elim (Bool-cases (length bytes == (length output + 1) / 2)) [
        | inl h ↦ absurd (ne ((==_iff _ _).0 h))
        | inr h ↦ rw h
      ])

pack_gf16-rejects :
    (elements : List Gf16) (output : List U8)
    → length elements + 1 < 2 ^ 64
    → length output ≢ (length elements + 1) / 2
    → pack_gf16 elements output ≡ (false, output)
unfolding pack_gf16
pack_gf16-rejects elements output fits ne =
    rw (lt→ltb (length elements + 1) (2 ^ 64) fits, pack_gf16)
      (elim (Bool-cases (length output == (length elements + 1) / 2)) [
        | inl h ↦ absurd (ne ((==_iff _ _).0 h))
        | inr h ↦ rw h
      ])

-- For fewer than 2^64 - 1 elements, packing into and unpacking from a slice of another length is
-- refused, and leaves the output as it was.
pub packing_rejects :
    (bytes : List U8) (elements : List Gf16)
    → length elements + 1 < 2 ^ 64
    → length bytes ≢ (length elements + 1) / 2
    → (unpack_gf16 bytes elements ≡ (false, elements)) × (pack_gf16 elements bytes ≡ (false, bytes))
packing_rejects bytes elements fits ne =
    (unpack_gf16-rejects bytes elements fits ne, pack_gf16-rejects elements bytes fits ne)
