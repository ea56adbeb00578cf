-- ===== src/Lib.antt =====
-- A model of the core of epilog, a Prolog system whose terms live on a heap of tagged 64-bit cells,
-- with theorems about it.
--
-- The program's parts and where they stand:
--   Term (src/common/term.hpp, src/common/term.cpp): the cells. Term/Cell has the tags and the
--     references, Term/Con the constants (con_cell), Term/IntCell the integers, character chunks and
--     headers of big numbers (int_cell, dat_cell); Term/Bytes has what their bytes have in common.
--   Heap (src/common/term.hpp, src/common/term.cpp): the heap, its blocks, allocation, dereferencing,
--     and the access to structures. Heap/Deref and Heap/Alloc hold the theorems, and Heap/Lists is
--     about lists.
--   Env (src/common/term_env.hpp): the environment of the terms: the heap, the stack of cells, the
--     trail of bindings and register HB. Env/Trail is about tidy_trail.
--   Env/Unify (src/common/term_env.cpp): unification. Env/Unify/Undo, Rounds, Kept and Steps follow
--     what it writes, Env/Unify/Outcome is about what it leaves, Env/Unify/Backtrack about
--     restore_state after it.
--   Env/Equal (src/common/term_env.cpp): the comparison of terms without binding. Env/Equal/Same says
--     when two terms are the same.
--   Env/Hash (src/common/term_env.cpp): the hash and the cost of terms.
--   Env/Order (src/common/term_env.cpp): the standard order of terms.
--   Serializer (src/common/term_serializer.hpp, src/common/term_serializer.cpp): cells and strings as
--     bytes.
--   TokenChars (src/common/token_chars.hpp, src/common/token_chars.cpp): the classes of characters and
--     the escaping of strings.
--   Tokenizer (src/common/term_tokenizer.hpp, src/common/term_tokenizer.cpp): the tokenizer.
--     Tokenizer.antt has its state and its character level, Tokenizer/Text the runs, layout, comments
--     and symbols, Tokenizer/Quoted names in quotes, strings and escapes, Tokenizer/Number the numbers,
--     and Tokenizer/Next next_token and what is built on it. Tokenizer/Eaten and Texts follow what goes
--     from the input into the lexeme, Outcomes, Escapes, Quotes and Numbers the operations that may
--     throw, and Progress, Tokens, Advance, Runs, NumberTokens, DigitTokens, QuotedTokens, Words,
--     Comments, Nested, Peeked and Positions are about tokens.
--   TrieDb (src/db/triedb.hpp, src/db/triedb.cpp): the database, a trie of keys for each root, in files
--     to which nodes are only appended. TrieDb/Words and Ranks have the bits of a branch, Nodes and
--     Files the leaves, the branches and the files, Update, Remove and Roots the operations. Pointers,
--     Children and Appends say what they do to branches and files, Tries what a trie in the files is
--     and holds, and Records and RoundTrips are about the bytes of the files. Update/Replaces, Pushed,
--     Updates, Steps, InsertSteps, Inserts and Part follow update_part, and Remove/Steps and Part
--     remove_part. Roots/Grow is about the loop of insert_or_update, Contents, Changes, Inserting,
--     Removing and NewRoots about the database, and Sessions and Runs about sequences of calls.
-- Prelude holds what the parts share. Each function of the source is one definition under its own name;
-- its state is passed on explicitly, and an exception is a value of Heap.Result, in the tokenizer of
-- Tokenizer.Scan, in the database of TrieDb.Update.Outcome. A cell is its raw 64-bit word, a native
-- number below 2^64, and what wraps around in the source is written with its remainder.
--
-- Loops that the source bounds by nothing run on fuel, and out of fuel they end with the error
-- endless_loop, which the source does not have. Dereferencing takes two more than the heap's size,
-- enough for each chain that leads downwards. Unification, the two comparisons and the tests of lists
-- take their fuel as an argument, and so do the hash and the cost of terms. A string is read with as
-- many rounds as the buffer has bytes, and each round takes eight of them. The recursion of update_part
-- and remove_part in the database runs on the depth of the branch, and the loop that makes a root
-- higher on thirteen rounds, which are enough for keys of 64 bits. The tokenizer's loops read at least
-- one character a round, and run on as many rounds as the input has characters.
--
-- Not modelled: the callbacks that load heap blocks from the database (the default ones are modelled,
-- so that the memory of all blocks is one function from addresses), the atom table (its names are a
-- parameter of the standard order), the names of variables, and the state that an exception of the heap
-- and the terms leaves behind. Boost's import_bits, which turns the bytes of a big number into an
-- integer, is a parameter of unification, and its lexical_cast of an int to a string one of the
-- tokenizer. The tokenizer's input stream is a list of codes, its positions have no upper bound, and
-- the texts of its exceptions are left out. Of the database, the assertions on the
-- size of a branch (which hold where its hash has 32 bytes), the caches (a cached node is taken to be
-- the one in the file), the updates by Merkle trees, the iterators and find are left out; its hash
-- function is a parameter, and so is the hasher of leaves that a client may install. A leaf of 2 MB or
-- more fails an assertion where it is appended, written or read. The serializer's
-- whole terms, the trie in memory (common/merkle_trie.hpp), the parser, the interpreter, the parts
-- above the database and the network are not modelled.

pub mod Prelude
pub mod Term
pub mod Heap
pub mod Env
pub mod Serializer
pub mod TokenChars
pub mod Tokenizer
pub mod TrieDb
