-- ===== src/Lib.antt =====
-- htools, a collection of C libraries and tools: a model of its parts and of what they promise.
--
-- hutils is the library of data structures and helpers that the other parts use: htest, a test
-- runner, hgmake, a build configuration tool, and hwt, a set of widgets. Inside hutils the
-- parts modelled here stand side by side: vector.h is a macro that makes a growable array of
-- any type, bitpack.c writes numbers to a buffer of bits, bitmask.c keeps a set of small
-- numbers, utf8.c makes strings of UTF-8, lexer.c reads a stream through a ring buffer, for
-- config.c to take tokens from, string.c compares, joins and splits C strings, getopt.c reads a
-- command line, hash.c hashes bytes, for users of hashtable.h, a macro that makes a hash table
-- of any type, and tailqsort.h is a macro that sorts a tail queue.
--
-- Which file models what:
-- - Prelude: lists, tests and words of 8, 32 and 64 bits, digits of numbers (Prelude/Bits), and
--   code that can stop the process (Prelude/Checks).
-- - Vector: hutils/include/hutils/vector.h, with the overflow check of
--   hutils/include/hutils/memory.h. Vector/Ops has one definition for each name_ function of
--   VECTOR_IMPLEMENT, on a record of the margin ofs, the size, the capacity and the cells of
--   the array. Vector/Invariant states the assertion of the source together with the bounds
--   under which size_t does not wrap, Vector/Contents reads the elements as a list, and
--   Vector/Run gives the specification, a script of operations on a list.
-- - Bitpack: hutils/src/bitpack.c. Bitpack/Ops has bitpack_uint32, bitpack_string,
--   bitpack_float and their inverses on a buffer of bytes and the index bit_i of the next bit.
--   A float is its 32 bits.
-- - Bitmask: hutils/src/bitmask.c, words of 32 bits as a list; Bitmask/Laws reads them as a
--   set.
-- - Utf8: hutils/src/utf8.c. Utf8/Ops has get_code, utf8_create, utf8_concat and utf8_get;
--   Utf8/Decode has the encoding of a code point, Utf8/Table the tests of get_code without
--   masks, Utf8/Text the text that a string holds, a sequence of encoded code points, and
--   Utf8/Replace which bytes utf8_create replaces.
-- - Lexer: hutils/src/lexer.c. Lexer/Ops has peek_char on the ring of 256 bytes, extract,
--   lexer_skip, lexer_create and lexer_cstr_callback, Lexer/Token has lexer_token_get.
--   Lexer/Ring states which stream a lexer stands before, Lexer/Peek what peek_char sees of it,
--   Lexer/Walk how far extract and lexer_skip go, and Lexer/Lexed which token a text starts
--   with; Lexer/See, Lexer/Scan, Lexer/Number, Lexer/Branches, Lexer/Literal, Lexer/Kinds,
--   Lexer/Gaps and Lexer/Got follow lexer_token_get from one look to the whole call.
-- - Config: hutils/src/config.c. Config/Ops has the sections and values as lists in the order
--   of their tail queues, a pointer to a member as its index, the getters and setters, and load
--   in the parts load_section, load_config and load_loop; Config/Names has lists whose members
--   have different names, Config/Values what the getters with a default return, Config/Load
--   what load makes of the tokens of a lexer, and Config/Stream what it makes of the text
--   behind lexer.c, by Lexer/Sizes.
-- - Strings: hutils/src/string.c. Strings/Ops has strbcmp, strecmp, strctv_, strtkn and
--   hutils_strndup_; a write of strctv_ outside of what it allocates is the result none.
-- - Getopt: hutils/src/getopt.c, the static variables as a record; a read behind the terminator
--   of an argument is the result none. Getopt/Progress follows one call, and Getopt/Group calls
--   in a row.
-- - Hash: hutils/src/hash.c, the FNV-1a hash.
-- - Hashtable: hutils/include/hutils/hashtable.h, the array as a function of the index.
--   Hashtable/Ops has one definition for each function of HASHTABLE_IMPLEMENT, Hashtable/Circle
--   the indices around the array, Hashtable/Find the order of a table and find,
--   Hashtable/Place, Hashtable/Round, Hashtable/Insert and Hashtable/Present what insert_ does,
--   and Hashtable/Gap and Hashtable/Erase what erase does.
-- - Hwt: hwt/src and hwt/include/hwt. Hwt/Base has the events and the rectangles, Hwt/Ops the
--   layout and the events of a tree of widgets, as grid.c, button.c, label.c, panel.c and hwt.c
--   compute them, Hwt/Links the pointers between widgets with hwt_widget_assign and
--   hwt_widget_free, and Hwt/Registry the types of widgets and the functions that create them.
--   Hwt/Route states which button an event comes to, Hwt/Measure and Hwt/Cells what a grid does
--   with its children, Hwt/Linked how the pointers and the widgets fit together, Hwt/Below
--   which widgets are below a pointer, and Hwt/Unlink, Hwt/Leaks and Hwt/Assign what becomes of
--   them.
-- - Tailqsort: hutils/include/hutils/tailqsort.h, the merge sort on a list of the nodes.
--
-- Conventions. A native number with its wrap-around written out stands for each unsigned type:
-- u8, u32, and add_size and sub_size on the 64 bits of size_t. An int that may be negative is
-- kept modulo 2 ^ 32. An assertion, abort or exit is the result none, after which nothing runs.
-- A C string is the list of its bytes before the terminator. Memory is there for every
-- allocation, except where a definition takes the failure as an argument; what an allocation or
-- a local array holds before it is written is an argument too (fresh, old, junk).
--
-- Fuel. A loop that is not structural takes fuel, and the theorems about it prove that the fuel
-- is enough: the loop of bitpack_uint32 packs a bit a round at least, those of bitunpack_string
-- meet the end of the buffer, those of utf8_create, lexer_skip and lexer_token_get take a byte
-- a round, or meet the end of the ring after 256, the sort halves its size, getopt steps to the
-- next argument, the loops of hashtable.h go around the array once, and hwt_widget_free clears
-- the parent of a widget a call.
--
-- A float of hwt is a parameter too, a type with the operations and the comparisons that the
-- code asks of it, and no law is assumed of them. A callback of a button is a number, and what
-- it does is not modelled; nor are widgets of other types than the four of hwt/src. What a
-- local size holds that is not written is an argument (junk).
--
-- In config.c a double, its conversions, strtod, strtol and the formats of printf are a
-- parameter as well. The loop of load reads a token a round at least, and a token takes a
-- character. The files that config.c opens and writes are not modelled.
--
-- The callback of a lexer is code of the caller's and so a parameter; IsReader says what fread
-- and lexer_cstr_callback do, that they deliver the stream in order and less than is wanted
-- only at its end.
--
-- Not modelled: pool.h and quadtree.h, although they are the program's own logic; queue.h,
-- tree.h, strlcpy.c and strlcat.c, which are copies of BSD code; udp.c, thread.c, dir.c,
-- file.c, fs.c, time.c, err.c, htest and most of hgmake, which are calls of the operating
-- system; random.c; and the vectors and matrices, whose laws hold up to rounding only.
-- Functions that only free memory have no definition.
pub mod Prelude
pub mod Vector
pub mod Bitpack
pub mod Bitmask
pub mod Utf8
pub mod Lexer
pub mod Strings
pub mod Tailqsort
pub mod Getopt
pub mod Hash
pub mod Hwt
pub mod Hashtable
pub mod Config
