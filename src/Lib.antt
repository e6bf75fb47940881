-- ===== src/Lib.antt =====
-- A model of tex_engine, the TeX engine under RusTeX, in which TeX documents are turned into HTML.
--
-- The engine has a mouth, which reads tokens from files and token lists; a gullet, which expands
-- macros and conditionals; a stomach, which carries out the unexpandable commands and builds nodes;
-- and the state, which holds registers, codes, fonts and the meanings of commands, and which undoes
-- local assignments when a group ends. The mouth reads the category codes from the state and hands
-- its tokens to the gullet; the gullet and the stomach call the state's setters; at the end of a
-- group the state gives the mouth the \aftergroup tokens. The model has the state, the mouth, tokens,
-- and of the gullet macros, conditionals and integers.
--
-- Files:
--   Tex/Catcodes: tex_engine/src/tex/catcodes.rs. CategoryCode, CommandCode, the conversions between
--     them and numbers (to_u8, try_from, as_byte, try_from_byte, to_command), and the four schemes.
--   Tex/Numbers: tex_engine/src/tex/numerics.rs, the types that the state stores.
--   Tex/Tokens, Tex/Compact: tex_engine/src/tex/tokens.rs. StandardToken, and CompactToken, which packs
--     a token into 32 bits: from_cs, from_char_cat, primitive, to_enum, ==, and what the trait Token
--     reads off a token. Tex/Packing relates the two.
--   State/Change, State/Stack: tex_engine/src/engine/state.rs. StateChange, and the journal
--     StateStack: push, pop, add_change_locally, add_change_globally and ChangeIter::close.
--   State/DefaultState, State/Assign, State/Pop: tex_engine/src/engine/state/tex_state.rs. The record
--     of all values, the getters, every setter as change_field with its function, take_parshape,
--     take_box_register, aftergroup, push and pop. State/CommandTable is CSNameVec of
--     tex_engine/src/tex/tokens/control_sequences.rs; State/Registers is the growth of a register
--     vector and its default.
--   State/View, State/Write, State/Places and State/Bounds relate the setters to writes of the places
--     of the state; State/Environment and State/Scopes are a stack of environments without a journal;
--     State/Invariant is when a journal can be undone; State/Refinement, State/Groups and
--     State/Operations relate the two; State/Programs, State/Lifetimes and State/Queues are about whole
--     groups.
--   Mouth/Input, Mouth/Superscript, Mouth/Names, Mouth/Tokenizer, Mouth/Readline, Mouth/ReadLoop:
--     tex_engine/src/engine/mouth/strings.rs, every operation of InputTokenizer: get_char, next_line,
--     do_par; maybe_superscript; get_escape, check_escape and get_cs_name; return_endline, check_char
--     and get_next; readline; read. Mouth/Ahead, Mouth/Words, Mouth/Progress, Mouth/NamesTotal,
--     Mouth/Total and Mouth/Exhaust hold the reference definitions and the proofs.
--   Mouth/Inputs, Mouth/Next: tex_engine/src/engine/mouth.rs, the stack of sources of DefaultMouth:
--     with_list, requeue, push_exp, push_slice_rev, push_macro_exp (with consume_rev of
--     tex_engine/src/tex/tokens/token_lists.rs), push_string, push_file, end_file, line_number and
--     get_next, and a step of iterate. Mouth/Pending and Mouth/Queue see it as a queue of tokens.
--   Mouth/Display: tex_engine/src/tex/characters.rs, display_fmt of bytes.
--   Gullet/Source: the interface Mouth between the gullet and the mouth, which DefaultMouth implements as
--     default_mouth. Gullet/Result: the results of the gullet's functions, with the variants of TeXError
--     of tex_engine/src/utils/errors.rs.
--   Gullet/Groups: read_until_endgroup of tex_engine/src/engine/mouth.rs. Gullet/Arguments:
--     read_arguments, read_argument and read_delimited_argument of
--     tex_engine/src/engine/gullet/methods.rs. Gullet/Parser: MacroParser of
--     tex_engine/src/commands/methods.rs. Gullet/Macros: do_macro of tex_engine/src/engine/gullet.rs,
--     and what def of tex_engine/src/commands/tex.rs reads behind the name. Gullet/Balance, Gullet/Pieces,
--     Gullet/Calls and Gullet/Definitions describe the text of groups, arguments, calls and definitions;
--     Gullet/Delimited, Gullet/DelimitedText, Gullet/MacroCalls, Gullet/Signatures and Gullet/RoundTrip
--     relate the functions to that text, and Gullet/Invariant is what MacroParser keeps.
--   Gullet/Conditionals: ActiveConditional of tex_engine/src/commands.rs, do_conditional of gullet.rs,
--     case_loop and false_loop of gullet/methods.rs, and else, or, fi and ifcase of commands/tex.rs.
--     Gullet/Skipping, Gullet/Branches and Gullet/Cases are about the text that is skipped.
--   Gullet/Integers, Gullet/Numeric: read_int, read_numeric, read_int_byte, read_dec_int, read_oct_int,
--     read_hex_int and read_int_char of gullet/methods.rs, over the interface Expansion, which stands for
--     the expansion of the tokens. Gullet/Radix, Gullet/Digits, Gullet/HexDigits and Gullet/Signs are about
--     literals in any base, in base 8 and 10, in base 16, and with signs. Gullet/Keywords: read_keyword,
--     over the same interface; Gullet/KeywordText is about it.
--   The files named Tests, BranchTests or IntegerTests hold runs on concrete inputs and the theorems at such runs.
--
-- How the code is rendered:
--   A panic is none: an index out of range, an unwrap of nothing, an unsigned number below zero.
--   Characters are bytes (the engine's u8 instance) as numbers; the failures of try_into, which only
--   other character types have, do not occur. A Vec that is used as a stack is a list with its last
--   element in front; another Vec is a list in order. A hash map is a function. An interned name is
--   its index in the state and in a CompactToken, and its characters in the mouth. The fonts, boxes
--   and definitions of the engine are parameters (EngineTypes). The id that StateChangeI caches is
--   computed from its change. The bits of a CompactToken are sums, quotients and remainders, and the
--   interner of primitives is a parameter.
--   The gullet's functions return Result, with errors as the handler ErrorThrower throws them; a
--   panic and the end of the fuel are panic there. Alignments and tracing are left out, so that requeue
--   and need_next are those of the mouth. The nine vectors for arguments are new ones, not the mouth's.
--   What a token means to a conditional's loop, the test of a conditional and read_int_command are
--   parameters. A sum that leaves its machine integer is a panic, as overflow checks make it.
--   A line source is the list of the lines that it has yet to give. The mouth's get_next takes the state
--   and the error handler as the record Settings.
--
-- Fuel: the loops of get_cs_name, get_next and read, and the recursion of check_escape and check_char
--   through ^^ notation, take fuel. Each round reads a character, takes a line, or notes the end of
--   the file; these are counted by remaining in Mouth/Progress, and two more than it are enough. The
--   mouth's get_next drops a list of tokens or reads from a tokenizer in each round; for tokens that
--   wait in lists, more fuel than sources is enough. The gullet's loops take a token in each round, and
--   more fuel than the tokens that they take is enough. Everything else is structural recursion.
--
-- Not modelled: logging and tracing, preview, printing, get_box_register_mut, which hands out a
--   mutable reference, and of the mouth endinput and the references to sources; of the gullet
--   alignments, strings, dimensions, read_keywords and the expansion of tokens. The other primitive commands,
--   the stomach, fonts, nodes, files and rustex itself are not modelled: they
--   are mostly glue over many interfaces, or input and output.
pub mod Prelude
pub mod Tex
pub mod State
pub mod Mouth
pub mod Gullet
