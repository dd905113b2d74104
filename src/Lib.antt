-- ===== src/Lib.antt =====
-- A model of parts of the YAZ toolkit: the BER codec below the Z39.50 protocol, the memory and text
-- buffers that the library works on, and its codecs for text.
--
-- The program. `ODR` (src/odr*.c) is a stream that encodes, decodes or prints ASN.1 values; the
-- generated code of each protocol calls its operations. Those rest on the basic encoding rules in
-- src/ber_*.c, which write to the stream's growing buffer and read from its input. Decoded values live
-- in nibble memory (src/nmem.c), text is gathered in a WRBUF (src/wrbuf.c), and queries, URIs and
-- records pass through the small codecs (src/utf8.c, src/ucs4.c, src/uri.c, src/base64.c).
-- A server's session keeps its requests in two queues (src/requestq.c), and JSON texts are parsed to
-- trees and written from them (src/json.c). Queries are read from prefix notation (src/pquery.c) and
-- written in it (src/querytowrbuf.c).
--
-- The files.
--   Prelude   shared names; Boolean tests, lists, signed numbers, and the digits of a number in a base
--             (the loop that ber_len.c, ber_tag.c and ber_oid.c share).
--   Odr       the stream: `Odr` holds the fields of `struct odr` and `struct Odr_private` that the codec
--             uses, `odr_putc`, `odr_write`, `odr_seek` and `odr_grow_block` the operations of
--             src/odr_mem.c and src/odr-priv.h. Odr/Buffer says what stores do to the buffer, and
--             Odr/Appends is the contract of an encoder that the modules of Ber use: the result, the
--             bytes appended, and what stays.
--   Ber       one module for each of src/ber_len.c (Length), ber_tag.c (Tag), ber_int.c (Integer),
--             ber_any.c (Any) and ber_oid.c (Oid); Simple has ber_bool.c and ber_null.c. Tagged has
--             `ber_tag`, and Constructed src/odr_cons.c, on the `Stream` of Odr/Stream, which holds the
--             stack of open types and the tags: Patch, Begun and Encoded are about the encoder, Entered and
--             Decoded about the decoder.
--   Nmem      src/nmem.c: blocks, chunks and counters.
--   Requestq  src/requestq.c: the queues of requests of a server's session, as chains of addresses in
--             a store. Queue says what two lists a queue stands for; Fifo is about enqueueing and
--             dequeueing, Freelist about the requests that are taken and given back.
--   Json      src/json.c: the tree, the parser (State, Scan and Parser) and the writer (Writer).
--             Strings, Numbers, Reads, Brackets, Arrays, Pairs and Objects say what texts are read as
--             which values, Layout and Values what the writer appends, and RoundTrip puts them together;
--             Forward, Loops and Halts are about the end of the parser; Access has the accessors of trees.
--   Pqf       src/pquery.c and src/querytowrbuf.c on the queries of Z39.50: State, Lexer, Attributes,
--             Parser and Scan have the parser, Writer the writer. Text says what the writer appends;
--             Tokens, Terms, Elements, Values, Named, Operators, Operands and Composed what is read of
--             it, Structures which queries come back and as what, and RoundTrip puts them together.
--             Progress, Advances, Completes, Halts and Finishes are about the end of the parsers and
--             what they return; Chosen is about the attributes of a term, Agrees about scan terms,
--             Errors and Bounds about failures and buffers.
--   Wrbuf     src/wrbuf.c: growth against a text, and escapes.
--   Utf8, Ucs4, Uri, Base64, Glob, Atoi, MatchStr
--             src/utf8.c, src/ucs4.c, src/uri.c, src/base64.c, src/match_glob.c, src/atoin.c and
--             src/matchstr.c.
--   Tests     the theorems at concrete inputs.
--
-- How the code is read. A function that changes a stream or a buffer takes the state and returns the
-- new one with the result; a function on a char pointer and a length takes the list of its bytes. An
-- `int` that may be negative is a `ℤ` or an error constructor of a type of its own, an INTEGER is its
-- 64-bit two's complement, and an arc of an identifier its 16-bit one. Memory that is allocated is
-- always there, since xmalloc aborts. The size of an output buffer is an `int` that overflows from 2^30
-- bytes on: odr_grow_block refuses there, where C's behaviour is undefined, and the theorems of the
-- encoders are for bytes that end below 2^30 (HasRoom in Odr/Buffer.antt). Tags from 2^28 on do not fit
-- the array of `ber_enctag`, which refuses them here. Sums of `size_t` in nmem.c wrap; its counters
-- are exact. What json.c calls of the C library for numbers and escapes (`sscanf`, `strtod` and the
-- printing of `%lg`) is a parameter, and a `double` is the number of its bits. So are, for Pqf, the
-- numbers of the C library and the look-ups of attribute sets in the generated table of identifiers.
--
-- Loops. A loop over bytes is a recursion on them. A loop that takes a byte or more in each round has
-- the number of bytes as fuel, which does not run out (the decoders of Uri and Base64, the check of
-- Utf8, the children of an element in Any). The loops over the digits of a 32-bit number have fuel for
-- four octets or five groups. `completeBER_n` counts its level down from 1001. The parser of Json has
-- fuel for 1001 levels, which its limit of 1000 makes enough, and for a round per character of the
-- text in the loops between brackets. The parser of Pqf has fuel for the length of the text and two, as
-- each structure begins with a token of its own. The loops of Requestq count the requests of a chain.
--
-- Not modelled: the locks, the log and the bytes in nibble memory; what a printing stream prints, and
-- the name of the element in an error; the memory of JSON trees, and json_detach_object, which leaves a
-- null pointer in one; conversion through iconv; the other query languages, lists of
-- facets, and what else src/querytowrbuf.c writes; the parsers of records; the servers, the
-- clients and the transport, which are input and output.
pub mod Prelude
pub mod Odr
pub mod Ber
pub mod Utf8
pub mod Wrbuf
pub mod Uri
pub mod Glob
pub mod Atoi
pub mod Base64
pub mod Ucs4
pub mod Nmem
pub mod Pqf
pub mod Requestq
pub mod MatchStr
pub mod Json
pub mod Tests
