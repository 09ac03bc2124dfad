-- ===== src/Lib.antt =====
-- libral manages the resources of a system (users, files, mounts, packages ...) through providers.
-- A provider reports resources, each a name with attributes, and is given updates, each a pair of
-- the resource as it is and as it should be; it brings the system there and says in its context
-- which attributes it has changed.
--
-- The parts, and the files that model them (paths from the root of the repository):
-- - Base: what all parts use. Base/Outcome: `result` of lib/inc/libral/result.hpp, where exceptions
--   and undefined behaviour are a third outcome; Base/State: methods that change a state and may
--   fail; Base/Text: the operations on texts from std and boost; Base/Dict: `std::map`.
-- - Storage: the objects of `result` with their tag and union, as programs make, copy, assign and
--   destroy them at addresses; it is why the other files may take results as values.
-- - Value, Resource: lib/src/value.cc and lib/src/resource.cc with their headers. `index` is
--   `operator[]` for reading, `assign` for writing.
-- - Context: lib/src/context.cc. Context/Record has `changes` and the map of a context; the
--   reference that `changes_for` returns is read by `changes_for` and written by `record_changes`.
--   Context/Missing and Context/MaybeAdd are about `maybe_add`, Context/Absent about `add_absent`.
-- - Attr: lib/src/attr/spec.cc. Attr/Create parses the descriptions of types, Attr has the types and
--   how they read and print, Attr/Json reads from documents.
-- - Provider: lib/src/provider.cc. The virtual methods are fields of the record `Provider`; `Call`
--   is the state of a call, which is the recorded changes and the system. Provider/Find, Set and
--   Create model `find`, `set` and `create(upd, chgs)`.
-- - Metadata: lib/src/prov/spec.cc on the tree that the YAML parser makes. Metadata/Interpreter is
--   lib/inc/libral/mruby.hpp, a session of the interpreter with its pending exception, in which the
--   parser is called; Metadata/Exceptions is about what it reports. Metadata/Environment and
--   Metadata/Builtin have `parse_spec` of lib/src/environment.cc and `describe` of the file, host and
--   mount providers, Accounts/Describe that of the other two.
-- - Simple: lib/src/simple_provider.cc. Simple/Protocol is `run_action` as a machine that reads
--   lines; Simple/Calls has the methods and their callbacks.
-- - Json: lib/src/json_provider.cc. Json/Action is `run_action`, Json/Changes reads the answer to
--   'set', Json/Calls has the methods; Json/Documents is what is used of leatherman's container.
-- - Command: lib/src/command.cc. Targets: lib/src/target, where Targets/Ssh and Targets/Local fill
--   the record `Target` that commands work on, and Targets/Lenses and
--   Targets/Opening are the two `augeas`.
-- - Ral: lib/src/ral.cc; Ral/Environment is `create`, Ral/Target `connect` and what
--   lib/src/environment.cc passes on to the target.
-- - Accounts: lib/src/user.cc and lib/src/group.cc; File: lib/src/file.cc, where File/Steps has the
--   methods that act on the file system, File/Set the decisions and File/Load what is read;
--   File/Table is the table of the comment above `set`.
-- - Mount: lib/src/mount.cc, with the nodes of lib/src/augeas/node.cc in Mount/Tree; Host:
--   lib/src/host.cc on the same nodes; Augeas: lib/src/augeas/handle.cc, which fills their `Handle`;
--   Augeas/Opening is its constructor, Augeas/Fresh the nodes with a number.
-- - Emitter: lib/src/emitter; Cli: exe/ralsh.cc and lib/src/cwrapper.cc, on the record `Emitter`,
--   where Cli/Start is `main` before its options are known;
--   Ruby: ruby/ext/libral/libral.cc, with the values of Ruby as the data type `RubyValue`.
-- - Examples: the theorems at concrete inputs.
--
-- What is not code of the repository is a parameter: the system is a type `W`; scripts,
-- programs, commands, the calls of the file system, libaugeas, JSON documents and the lookup of
-- commands are functions on it or records of such functions. Nothing is assumed of them, but in
-- File/Mode of `std::stoi` on octal digits, in Cli/Layout that a variable of the process that is set
-- is read back, and in File/Content that a file reads as it was written.
--
-- The loops run over lists and texts. Two have fuel: the one over RALSH_DATA_DIR, which ends
-- within one round more than the text has characters, and the printing of octal digits, of
-- which a 32-bit number has at most eleven. A number is a natural number; the ids and modes
-- that `std::stoi` reads are 32-bit words, as the parameter gives them; `_seq` of a handle is an
-- int of 32 bits, counted from the least one, whose overflow is undefined; and the width of
-- `puppet_emitter` keeps its 16 bits. `std::sort` is insertion sort. `garbage` is the value of
-- a variable that is not initialised.
--
-- Not modelled: `describe` of built-in providers on targets other than this system; the writing
-- of the log; what boost makes of a command line; the pointers that objects of Ruby wrap and
-- the copies of the mruby tools; the private assignments by move of `result`, which nothing
-- calls. Texts that go to Ruby and come from it are C strings, and end at or are refused for a
-- NUL; what mruby shows of a string is taken whole. Error messages have their words; what the
-- translation library does to a format is left out where a message has no argument in the
-- model.
pub mod Base
pub mod Value
pub mod Resource
pub mod Context
pub mod Attr
pub mod Provider
pub mod Simple
pub mod Storage
pub mod Json
pub mod Targets
pub mod Emitter
pub mod Cli
pub mod Ruby
pub mod Ral
pub mod Command
pub mod Accounts
pub mod File
pub mod Metadata
pub mod Augeas
pub mod Mount
pub mod Host
pub mod Examples
