-- ===== src/Lib.antt =====
-- The wrutil library: verification of its components for text, hashing, lists and command lines.
--
-- Parts and files. Each part is a module named for it, with its definitions in the file at the top and
-- its proofs in child modules; concrete runs stand in the child Runs.
-- - Utf8: src/utf8.cxx and include/wrutil/utf8.h. utf8_char, utf8_inc, utf8_dec, utf8_seq_size, utf8_seq
--   and utf8_append carry the names of the functions. A pointer is the list of the bytes from it on, or
--   of the bytes before it where the code walks backwards.
-- - Utf16: src/utf16.cxx and include/wrutil/utf16.h, in the same way, over units of 16 bits.
--   Utf16.Standard has the encoding form of the Unicode standard.
-- - StringView: include/wrutil/string_view.h. A view is the list of its units; find_char, split_char and
--   the like are the overloads on one unit, find, rfind and split those on a view, compare_views is
--   compare. size_t wraps at 2^64, and npos is 2^64 - 1. Trimming, which src/Option.cxx uses on
--   every argument, rests on the two searches for a unit outside of a set.
-- - Option: src/Option.cxx and include/wrutil/Option.h. Option.Table is OptionsByPrefix with its entries,
--   Option.Setup the first loop of Option::parse, and Option.Choose and Option.Parse the second one,
--   cut into the start of a round, the look-up, the argument and the call. A handler is a function
--   into a reply and the state of the caller, and an exception is a value. Option.SubOptions is
--   Option::parseSubOptions. Option works on the views of StringView.
-- - ArgV: src/ArgVBuilder.cxx, and Option::toArgVector of src/Option.cxx, which fills a builder.
-- - TaggedPtr: include/wrutil/tagged_ptr.h, over words of 64 bits.
-- - CircList: include/wrutil/circ_fwd_list.h. CircList.Heap is the heap of nodes, and a list is its last_
--   pointer; an operation is a command on the heap that gives the new last_, and fails at a pointer to
--   no node. CircList.Ops has the operations on a few nodes and CircList.Loops those that walk through a
--   list. CircList.Ring says which sequence of nodes a list stands for. Values and their tests are
--   parameters, and so are the addresses that the allocator gives.
-- - U8StringView: src/u8string_view.cxx and include/wrutil/u8string_view.h, over the coder of Utf8. A view
--   is two addresses in a memory that gives a byte at each address. U8StringView.Text says which code
--   points a view stands for, U8StringView.Walk what the templates do on an iterator in either
--   direction.
-- - Format: src/Format.cxx and include/wrutil/Format.h. Format.Digits and Format.Doubles are the
--   conversions into a buffer, Format.Fields the switches of Target::format, Format.Layout the width and
--   the padding behind them, Format.Spec the parser in convert, Format.Targets the targets and
--   Format.Print the functions that join these; Format.Arguments has the values of a call, which a
--   handler turns into arguments. An outcome is a result, -1 with errno, an exception or undefined
--   behaviour. The C library, streams and locales are parameters.
-- - Charset: is_utf8 of the name of a character set, in src/utf8.cxx.
-- - Algorithm: what string_view.h uses of the C++ algorithms.
-- - Sha256: src/SHA256.cxx and include/wrutil/SHA256.h, for a little-endian machine with a 64-bit
--   size_t. Sha256.Block is computeBlock; append, finish (the static hash), hash, chash, reset and
--   to_hash are the members. The state keeps the bytes of the first sixteen words of W_, because
--   computeBlock writes the others before it reads them. Sha256.Standard is the hash function of
--   FIPS 180-4, written from the standard and not from the code.
-- - Common: shared names, tests on numbers, lists measured by native numbers, masks.
--
-- Bounds and fuel. Words wrap by % 2^32 and % 2^64. The loop of SHA256::append has the number of bytes
-- as fuel, and each round takes at least one. The loop of Option::parse has as fuel the number of
-- arguments and of their characters, that of Option::parseSubOptions the characters of its argument.
-- The loops of print and convert have the length of the text as fuel, and those that write digits the
-- room of the buffer. Loops over a view of U8StringView have the number of its bytes as fuel, and those
-- of CircList a number of nodes. Sizes of views are below 2^64 - 1 where a lemma says so.
--
-- Not modelled: character classification and case conversion of the C library (parameters), locales,
-- streams, printStr, the file system, in u8string_view ensure_is_safe and the searches for a set, in
-- circ_fwd_list sort, remove of a node and splice_after of a range, the copies of libc++ (optional,
-- codecvt facets) and of CityHash, platform code and the test runner.
pub mod Common
pub mod Algorithm
pub mod ArgV
pub mod Charset
pub mod CircList
pub mod Format
pub mod Option
pub mod Sha256
pub mod StringView
pub mod TaggedPtr
pub mod U8StringView
pub mod Utf16
pub mod Utf8
