-- ===== src/Tests/Text.antt =====
-- The theorems on text and memory at concrete inputs: src/utf8.c, src/wrbuf.c, src/uri.c,
-- src/match_glob.c, src/atoin.c, src/base64.c, src/ucs4.c, src/matchstr.c and src/nmem.c.
use yaz.Prelude.{
  ℕ, ◌+◌, ◌^◌, ◌<◌, ◌≤◌, ◌≡◌, refl, true, false, [], ◌∷◌, ◌++◌, Bytes, List, some, length, take,
  arith, All, ◌↔◌, codes, ltb, if◌then◌else◌,
}
use yaz.Utf8.{char, yaz_read_utf8_char, yaz_write_utf8_char, yaz_utf8_check}
use yaz.Utf8.RoundTrip.{utf8_octets, utf8_round_trip}
use yaz.Utf8.Canonical.{yaz_read_utf8_char_canonical}
use yaz.Utf8.Check.{IsUtf8, yaz_utf8_check_iff}
use yaz.Wrbuf.{wrbuf_alloc, wrbuf_xmlputs_n}
use yaz.Wrbuf.Growth.{Op, putc, write, chop_right, run, edit_all, IsSafe, wrbuf_refines_text}
use yaz.Wrbuf.Escape.{IsXmlSafe, unescape, kept, wrbuf_xmlputs_n_lem}
use yaz.Uri.{
  yaz_encode_uri_component, yaz_decode_uri_component, Pair, array_size, yaz_array_to_uri,
  yaz_uri_to_array,
}
use yaz.Uri.Component.{decode-encode_uri_component}
use yaz.Uri.Query.{IsSanePair, yaz_array_to_uri_fits}
use yaz.Uri.Pairs.{uri_to_array-array_to_uri}
use yaz.Glob.{yaz_match_glob2}
use yaz.Glob.Matches.{Matches, yaz_match_glob2_iff}
use yaz.Atoi.{yaz_atoul, atoi_n}
use yaz.Atoi.Value.{BeginsWith, decimal, fitting, yaz_atoul_lem, atoi_n_lem}
use yaz.Base64.{yaz_base64encode, yaz_base64decode}
use yaz.Base64.RoundTrip.{base64decode-base64encode}
use yaz.MatchStr.{yaz_matchstr}
use yaz.MatchStr.Equal.{IsSameText, yaz_matchstr_iff}
use yaz.Nmem.{Globals, nmem_destroy}
use yaz.Nmem.Runs.{Call, malloc, reset, calls, created, IsSound, calls-IsSound, destroy-calls}

utf8_round_trip_example :
    (yaz_write_utf8_char 0x20ac 6 ≡ some (utf8_octets 0x20ac))
    × (yaz_read_utf8_char (utf8_octets 0x20ac ++ 65 ∷ [])
        ≡ char 0x20ac (length (utf8_octets 0x20ac)))
utf8_round_trip_example = utf8_round_trip 0x20ac 6 (65 ∷ []) (omega arith) (omega arith)

yaz_read_utf8_char_canonical_example :
    (take 2 (0xc3 ∷ 0xa5 ∷ 65 ∷ []) ≡ utf8_octets 0xe5)
    × (0xe5 < 2 ^ 31)
    × (2 ≡ length (utf8_octets 0xe5))
    × (2 ≤ length {A = ℕ} (0xc3 ∷ 0xa5 ∷ 65 ∷ []))
yaz_read_utf8_char_canonical_example =
    yaz_read_utf8_char_canonical (0xc3 ∷ 0xa5 ∷ 65 ∷ []) 0xe5 2 (omega arith)
      (unfold yaz_read_utf8_char in refl)

yaz_utf8_check_iff_example : (yaz_utf8_check (0xc0 ∷ 0x80 ∷ []) ≡ true) ↔ IsUtf8 (0xc0 ∷ 0x80 ∷ [])
yaz_utf8_check_iff_example = yaz_utf8_check_iff (0xc0 ∷ 0x80 ∷ [])

abbrev edits : List Op
edits = write (codes "ab") ∷ putc 32 ∷ chop_right ∷ []

wrbuf_refines_text_example :
    ((run edits wrbuf_alloc).buf ≡ edit_all edits []) × IsSafe (run edits wrbuf_alloc)
wrbuf_refines_text_example = wrbuf_refines_text edits

wrbuf_xmlputs_n_lem_example :
    (text : Bytes) × ((wrbuf_xmlputs_n (codes "a<b") wrbuf_alloc).buf ≡ wrbuf_alloc.buf ++ text)
    × All IsXmlSafe text
    × (unescape (length text) text ≡ kept (codes "a<b"))
wrbuf_xmlputs_n_lem_example = wrbuf_xmlputs_n_lem (codes "a<b") wrbuf_alloc

decode-encode_uri_component_example :
    yaz_decode_uri_component (yaz_encode_uri_component (37 ∷ 200 ∷ [])) ≡ 37 ∷ 200 ∷ []
decode-encode_uri_component_example =
    decode-encode_uri_component (37 ∷ 200 ∷ []) (omega arith, (omega arith, tt))

abbrev query : Pair
query = record { name = 113 ∷ []; value = 97 ∷ 38 ∷ [] }

yaz_array_to_uri_fits_example : length (yaz_array_to_uri (query ∷ [])) + 1 ≤ array_size (query ∷ [])
yaz_array_to_uri_fits_example = yaz_array_to_uri_fits (query ∷ [])

uri_to_array-array_to_uri_example :
    yaz_uri_to_array (yaz_array_to_uri (query ∷ query ∷ [])) ≡ some (query ∷ query ∷ [])
uri_to_array-array_to_uri_example = uri_to_array-array_to_uri query (query ∷ []) (sane, (sane, tt))
  where
    sane : IsSanePair query
    sane = (
      ((omega arith, omega arith, omega arith, omega arith, omega arith), tt),
      (omega arith, (omega arith, tt)),
    )

abbrev same : ℕ → ℕ
same c = c

yaz_match_glob2_iff_example :
    (yaz_match_glob2 same (codes "a*c") (codes "abc") false ≡ true)
    ↔ Matches same false (codes "a*c") (codes "abc")
yaz_match_glob2_iff_example = yaz_match_glob2_iff same false (codes "a*c") (codes "abc")

yaz_atoul_lem_example :
    (ds : List ℕ) × BeginsWith 16 (codes "fFz") ds
    × (yaz_atoul 16 (codes "fFz") ≡ fitting 16 0 0 ds)
yaz_atoul_lem_example = yaz_atoul_lem 16 (codes "fFz") (omega arith) (omega arith)

atoi_n_lem_example : atoi_n (codes "42") ≡ (if ltb (decimal 0 (codes "42")) (2 ^ 31) then 42 else 0)
atoi_n_lem_example =
    atoi_n_lem (codes "42") ((omega arith, omega arith), ((omega arith, omega arith), tt))

base64decode-base64encode_example :
    yaz_base64decode (yaz_base64encode (1 ∷ 255 ∷ [])) ≡ some (1 ∷ 255 ∷ [])
base64decode-base64encode_example =
    base64decode-base64encode (1 ∷ 255 ∷ []) (omega arith, (omega arith, tt))

yaz_matchstr_iff_example :
    (yaz_matchstr (65 ∷ []) (97 ∷ []) ≡ false) ↔ IsSameText (65 ∷ []) (97 ∷ [])
yaz_matchstr_iff_example =
    yaz_matchstr_iff (65 ∷ []) (97 ∷ []) ((omega arith, omega arith, omega arith), tt)
      ((omega arith, omega arith, omega arith), tt)

abbrev counters : Globals
counters = record { no_nmem_handles = 1; no_nmem_blocks = 2; nmem_allocated = 9000; fresh = 5 }

abbrev script : List Call
script = malloc 100 ∷ malloc 5000 ∷ reset ∷ malloc 8 ∷ []

calls-IsSound_example : IsSound (calls 8 script (created counters))
calls-IsSound_example =
    calls-IsSound 8 (omega arith) script counters (omega arith)
      (omega arith, (omega arith, (tt, (omega arith, tt))))

destroy-calls_example :
    ((nmem_destroy
        (calls 8 script (created counters)).memory
        (calls 8 script (created counters)).globals).no_nmem_handles
      ≡ 1)
    × ((nmem_destroy
          (calls 8 script (created counters)).memory
          (calls 8 script (created counters)).globals).no_nmem_blocks
        ≡ 2)
    × ((nmem_destroy
          (calls 8 script (created counters)).memory
          (calls 8 script (created counters)).globals).nmem_allocated
        ≡ 9000)
destroy-calls_example = destroy-calls 8 (omega arith) script counters
