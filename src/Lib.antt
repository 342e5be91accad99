-- ===== src/Lib.antt =====
-- Frugal: a Thrift binary codec that walks over Go values with descriptors made at run time.
--
-- The program. internal/defs/resolver.go and internal/defs/types.go read the fields of a Go struct
-- and their Thrift types. internal/reflect/desc.go turns them into a structDesc, kept in the map of
-- internal/reflect/descmap.go, and internal/reflect/ttype.go gives each type the functions that
-- append and measure its values. frugal.go and internal/reflect/reflect.go are the entries; append.go,
-- append_list.go, append_list_fast.go, append_map.go and append_map_fast.go encode; decoder.go decodes
-- with the help of bitset.go, span.go and unknownfields.go (all in internal/reflect).
--
-- The files.
--   Base: names shared by all modules; Base/Tests the Boolean tests, Base/Lists lists measured by
--     native numbers, Base/Results the outcome of a call (a value, an error, a panic, a fault, or
--     fuel used up), Base/Bits laws of bit_and and bit_or.
--   Wire: bytes and big-endian words (internal/reflect/utils.go).
--   Types: Type, Tag, IsKeyType, IsValueType of internal/defs/types.go, the tables of ttype.go and
--     desc.go, and the fields of the tType that newTType returns.
--   Parse: ParseType of types.go, on a Go type; Parse/Tokens, Parse/Fits: what it returns.
--   Names: String of types.go, in the key of the tTypes of newTType; Names/Distinct: that it tells
--     types apart.
--   Resolve: DoResolveFields of resolver.go; Resolve/Order, Resolve/Ids: the IDs of what
--     it returns.
--   Desc: Field of resolver.go, tField, structDesc, fromDefsField, fromDefsFields, GetField
--     (desc.go); Desc/Sizes, Desc/Accounts, Desc/Lookup and Desc/Table are their
--     theorems.
--   Prefetch: newStructDesc, newStructDescAndPrefetch, prefetchSubStructDesc, fetchStructDesc of desc.go
--     on the two caches that they write, prefetchStructDescCache and the Sd of the tTypes, by struct
--     type; Prefetch/Keys, Prefetch/Calls, Prefetch/Complete, Prefetch/Created, Prefetch/Resolved,
--     Prefetch/Reach: what is in the caches.
--   Creation: getOrcreateStructDesc and createStructDesc, with callers side by side; Creation/Maps,
--     Creation/Steps, Creation/Agreement: what they are given; Creation/Falls, Creation/Held,
--     Creation/Ends: that they end.
--   Unique: checkUnique and checkUniqueness of utils.go; Unique/Pairs: what they accept.
--   Value: a Go value in memory. A pointer is the value that it leads to, a struct the list of its
--     fields in memory order, so a field's offset is its index; a map has its count and the entries
--     in the order of an iteration.
--   Child: an address: the value there, and the functions of newTType called at it. Equal of ttype.go.
--   Encode, Encode/MapLoop, Encode/MapFast: appendStruct, appendAny, the list and the map functions.
--   Size: EncodedSize, encodedMapSize, encodedListSize. Codec: the walk, which gives every value its
--     Child. Entry: Append, EncodedSize, EncodeObject on a struct with its descriptor.
--   Spec: the Thrift binary form of a value; Spec/Typed: which values a variable of a type can hold.
--   Correct and its children: Append and EncodedSize against the form.
--   Decode: decodeFixedSizeTypes and the string decoders of decoder.go; Decode/Runtime: mallocIfPointer
--     and what the decoder takes from outside, a parameter: new memory, InitDefault, Skip of the Thrift
--     library, the pools; Decode/Containers: tMAP, tLIST and tSET of decodeType; Decode/Fields: the
--     field loop of Decode; Decode/Walk: decodeType, Decode, and Decode of reflect.go.
--   Decode/Scalars: what is read of a word and of a text; Decode/Required: the bitset of the required
--     fields before the field loop; Decode/Tells, Decode/Trace, Decode/Checked: the check of required
--     fields against the fields on the wire; Decode/Bounds and its children: that Decode ends and stays
--     inside the buffer;
--     Decode/Result: what a value is after its trip; Decode/RoundTrip and its children: Decode on what
--     Append wrote, with Decode/RoundTrip/Same on the values that do not change.
--   Decode/Unknown: the bytes of unknown fields as pieces, and what Decode keeps of them.
--   UnknownFields, Bitset, Span, DescMap: unknownfields.go, bitset.go, span.go, descmap.go.
--   Tests: sample descriptors and values, and every theorem with conditions applied to some.
--
-- Bounds. A w-bit word is its bit pattern, with wrap-around written out. Go's int is unbounded where
-- it counts bytes. A slice, a map or a string of Spec/Typed is shorter than 2^31, the bound of the
-- protocol. The walk over a value is structural recursion: a cyclic value is not a value here.
-- The decoder's depth is maxDepthLimit, 1023, on which decodeType and Decode recurse. The field loop
-- runs on fuel, one more than the bytes of the buffer: every round that goes on takes three or more.
-- newStructDescAndPrefetch calls itself on struct types that are not cached: one call more than there are
-- types is enough. A Go type of the parser holds itself through structs only: on `type M map[string]M`
-- without a descriptor the parser never returns.
-- What memory gives that is read at another type than it was written at is not known, and is `fault`: the
-- []byte values and the double keys of maps that append_map_fast.go ranges over, and a struct held by
-- value of which EncodedSize takes the first word for a pointer.
--
-- Not modelled: the checks of the kind of an interface value in reflect.go; newTType's cache, which
-- keeps the tType of a type for which newTType has panicked; Go's reflection and the unsafe runtime
-- access of hack.go, of which the value model is what the code relies on; pools; the texts of errors,
-- and the number of bytes that Decode returns beside one; deprecated options; the tools that test and
-- fuzz the library. Of the memory model, loads and stores of the map's slots and sections under the
-- lock are single steps. A caller's value is encoded and decoded with the Sd of every struct type that
-- is met set, as Prefetch/Reach shows it to be from caches that no failed prefetch has left incomplete.
pub mod Base
pub mod Wire
pub mod Types
pub mod Value
pub mod Desc
pub mod Child
pub mod Encode
pub mod Size
pub mod Codec
pub mod Entry
pub mod Spec
pub mod Correct
pub mod Decode
pub mod UnknownFields
pub mod Tests
pub mod Span
pub mod Bitset
pub mod DescMap
pub mod Parse
pub mod Resolve
pub mod Names
pub mod Prefetch
pub mod Creation
pub mod Unique
