-- ===== src/Lib.antt =====
-- Fuzzball Emerald: a MUCK server, a multi-user world that its users program.
--
-- The program's parts. A client's bytes pass through the telnet decoder (internal/session) and
-- become lines, of which a client program may have MCP messages among them (internal/mcp); the
-- rest name objects (internal/match) and run commands (internal/game), MUF programs
-- (internal/muf) and MPI text (internal/mpi). Objects live in the world (internal/world): a
-- reference (internal/ref) names one, a flag word gives its type and permissions, and a tree of
-- properties (internal/props) its data. A lock (internal/boolexp) is an expression that is kept
-- as text in a property and says who may use an object; its string tests are pattern matches
-- (internal/ascii). The world is kept in SQL tables (internal/store).
--
-- Which file models what.
--
--   Ascii: internal/ascii/ascii.go (lower, fold, equal_fold, compare_fold, has_prefix);
--   Ascii/SMatch and Ascii/SMatch/Class: internal/ascii/smatch.go (smatch, wmatch, cmatch,
--   estrchr). Bytes are numbers; a byte counter wraps at 256 as in the code.
--
--   Ascii/Alphanum: internal/ascii/alphanum.go, with both positions as what stands before and
--   behind them.
--
--   Session/Telnet: internal/session/telnet.go. The decoder's fields are a record, Decode a
--   fold over the bytes; a call of onResize is recorded in the field resizes.
--
--   Session/Quota: internal/session/quota.go. What is done under the lock is one step of a
--   relation over the allowance and those who wait; a channel is a number, of how many were
--   closed before it.
--
--   Ref and Ref/Flags: internal/ref/ref.go and flags.go. A Ref is an integer in the range of
--   int32, a flag word a number.
--
--   Props/Value, Props/Tree, Props/Perms: internal/props/props.go and perms.go. Nodes and lists
--   of nodes are two mutual types; a write through the pointer that makeChild returns is a
--   function on the child. Props/Tree/Dirs has the operations on directories and blessings,
--   Props/Tree/Walk the walks, as the lists of what a callback sees.
--
--   Boolexp, Boolexp/Parse, Boolexp/Unparse, Boolexp/Eval: the files of internal/boolexp;
--   Boolexp/Runes: what parse.go uses of the trimming functions of package strings. The
--   interface Host is a record of functions and a parameter of all three, so matching, MPI
--   evaluation and lock programs stand for whatever the host answers, without a change of the
--   world while one lock is evaluated.
--
--   World: internal/world/object.go and world.go. A map from references to objects is a list of
--   entries (Prelude/RefMap), a write through a pointer to an object is a write at its
--   reference, and MoveTo is move_to, contains is contains, removeFromChain is
--   remove_from_chain. World/Linked says what it is for the lists to agree with the locations,
--   World/Unlink, World/Detach, World/Place, World/Move and World/Inside are about moves.
--   World/Create: Create, nextRef, Add and Recycle; World/Env: internal/world/env.go and
--   parent.go; World/Repair: internal/world/repair.go.
--
--   Mcp: internal/mcp/mcp.go; Mcp/Lex: lex.go and escapeArg; Mcp/Versions: Version and its
--   functions; Mcp/Frames: frame.go from readLine down to parseEnd, where a map is a list of
--   entries; Mcp/Negotiate: frame.go from handleInit on, where random keys are arguments and
--   the lines for Send a part of the result; Mcp/Send: send.go, where the random data tag is an
--   argument and the lines for Send are the result. The other children are about what one end
--   sends and the other reads.
--
--   Muf: internal/muf/value.go, inst.go and the part of frame.go for the stack and the
--   variables; Muf/Stack: Push, Pop, PopN, Peek, popInt, readVar, writeVar, getScoped,
--   setScoped; Muf/Prims: internal/muf/prim_stack.go, where run has a clause for each primitive
--   that is registered. The stack's top comes first. A primitive is a function from a frame to
--   an end, an error or a panic, each with the frame that it leaves; Go's panics are outcomes,
--   so that their absence can be stated. Muf/Array: internal/muf/array.go, over any type of
--   values; its map is a list of entries. In a frame an array is a pointer into a heap of which
--   these primitives read only whether an array is packed and how long it is.
--
-- The lock parser trims the runes of a text, as the code does; elsewhere text is ASCII where
-- the code counts in runes. Prelude has what the parts share: bytes, integers over the native
-- numbers, strconv's decimal numbers, white space.
--
-- Fuel. The arguments on a message's first line are read on the length of what is left of it,
-- which is shown to be enough. smatch takes one more than the pattern's length, the lock parser
-- three for each byte and three more; both are shown to be enough on every input. The
-- evaluation of a lock takes fuel for the search of a player's contents and for each walk of
-- the environment, which the code leaves unbounded: it is enough where containment and
-- environment have no cycle. removeFromChain and Parent have loops that the code leaves
-- unbounded too: as many rounds as there are objects are enough for the first where the lists
-- agree with the locations, and one more for the second in every world.
--
-- Not modelled: network and database I/O, goroutines, configuration, the handlers of MCP
-- packages, the rest of the MUF machine and its compiler, the MPI interpreter, and the commands
-- of internal/game.
pub mod Prelude
pub mod Ascii
pub mod Session
pub mod Ref
pub mod Props
pub mod Boolexp
pub mod World
pub mod Mcp
pub mod Muf
