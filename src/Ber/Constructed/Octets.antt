-- ===== src/Ber/Constructed/Octets.antt =====
-- The octets of a constructed type of src/odr_cons.c.
use yaz.Prelude.{ℕ, true, [], ◌∷◌, ◌++◌, Bytes, length, leb, if◌then◌else◌}
use yaz.Ber.Tag.RoundTrip.{tag_octets}

-- The bytes behind the identifier: a short length, or the indefinite form, which ends with two zeros.
abbrev pub end_octets : Bytes → Bytes
end_octets cs = if leb (length cs) 127 then [] else 0 ∷ 0 ∷ []

abbrev pub constructed_octets : ℕ → ℕ → Bytes → Bytes
constructed_octets zclass tag cs =
    tag_octets zclass tag true
    ++ ((if leb (length cs) 127 then length cs else 0x80) ∷ (cs ++ end_octets cs))
