-- ===== src/Lib.antt =====
-- The verification library of cdbx: the databases that cdbx/cdb32.c makes and reads, and the
-- tools under tasks/ that keep the repository's dependencies up to date and build its command
-- lines. Texts are lists of code points, bytes and numbers are natural numbers; the 32 bit
-- integers of the C code wrap around by `u32`.
--
-- How the parts interact: `tokens` (ReqFile) reads the requirement files; the scanner of versions
-- (Scanner) asks the package index what a requirement could be raised to; the version arithmetic
-- (Version) writes the new requirement, where the configuration allows it (Suggest, Replace); the
-- file models (FileModel) split a requirement file or a setup.py into parts, in which
-- requirements are found and patched, and write the rest back as it was; the latest block
-- (Latest) keeps a list of the newest versions in one more file. Package names are compared in
-- their normal form (Names). External programs are called with command lines that are split,
-- filled and quoted (Shell). What is installed, required by editable packages and asked for in
-- the files is gathered by package (Inspection), and then changed site by site (Suggest.Updates).
-- Around this, the task runner finds its tasks (TaskTree), and releases update their files
-- (Release) and build their wheels (Wheels, Setup).
--
-- * Cdb, for cdbx/cdb32.c: Cdb.Maker is `cdb32_cstring` and `cdbx_cdb32_maker_add`, Cdb.Writer
--   the write buffer, Cdb.Commit `cdbx_cdb32_maker_commit`, with the counting sort in Cdb.Sort
--   and the linear probing in Cdb.Slots; Cdb.File is `cdb32_read`, `cdb32_read_map`, the macros
--   on them and the comparisons of keys, Cdb.Find `cdb32_find`, the iterator of the values of a
--   key and `cdbx_cdb32_contains`; Cdb.Iter is the search for a key in the file, the iteration
--   over the records and their count, with the loop of cdbx/cdbiter.c; Cdb.Hash is the hash,
--   Cdb.Word the bytes of a number. Cdb.Calls is the object CDBMaker of cdbx/cdbmaker.c with its
--   flags and pointers and the files that its methods close, hand over and remove, Cdb.Calls.Phases
--   what they promise. Cdb.Maker.Holds says what a maker holds after additions, Cdb.Commit.Layout what a
--   committed file consists of, and Cdb.Committed reads it.
-- * Shell, for tasks/_inv/shell.py: Shell.Split is `_make_split_command`, Shell.Format
--   `_make_formatter`, Shell.Posix `_make_posix_command`, Shell.Win32 `_make_win32_command`.
--   Shell.Split.Spelled describes the lines that a user writes, Shell.Posix.Words a POSIX shell's
--   reading of quotes, Shell.Win32.Argument that of `cmd.exe` and the C runtime on Windows.
-- * Names, for `normalize` and `safe_extra` of tasks/deps/_parse.py.
-- * Version, for the expression `version_release` of tasks/deps/_parse.py and for `digits` and
--   `plus_1` of tasks/deps/_suggest/_requirement.py. The option `-2` is `from_end 2`.
-- * Scanner, for `PackageScanner` of tasks/deps/_inspect/_index.py. A scanner is the record of
--   `_version` and the three keys of `_result`.
-- * Inspection, for `inspect_dependencies` and what it calls in tasks/deps/_inspect/_inspect.py,
--   of which Places is `_place_evaluates`, `_inspect_place` and `_inspect_package`. The branch of
--   `_find_editable_deps` for Pythons without `importlib.metadata` is left out.
-- * Suggest, for `_updatable` of tasks/deps/_suggest/_suggest.py, and Suggest.Updates for the
--   loops of `suggest_updates`, on the candidates with their locations. The dictionaries are
--   lists.
-- * Replace, for `replace`, `_replace_compat`, `_replace_upgrade`, `_replace_latest` and
--   `_spec_sub` of tasks/deps/_suggest/_requirement.py.
-- * ReqFile, for tasks/deps/_inspect/_req_file.py: ReqFile.Files is `FileIterator`, `File` and
--   `Line`, ReqFile.Paths what they use of `os.path`, ReqFile itself the loop of `tokens`, whose
--   body is `classify`.
-- * FileModel, for tasks/deps/_suggest/_file_model.py and the scanner of Python strings in
--   tasks/deps/_parse.py (FileModel.Python); FileModel.Patch for
--   tasks/deps/_suggest/_dep_file.py.
-- * Latest, for tasks/deps/_suggest/_latest_file.py; Latest.Changed is `as_changed`, and Latest.Block
--   says what `load` cuts out of the file.
-- * Changelog, for what `patch_updates` of tasks/deps/_patch.py returns.
-- * Merge, for `dictmerge` of tasks/_inv/util.py.
-- * TaskTree, for `setup_tasks`, `execute`, `optional` and the names in `_find_modules` of
--   tasks/_inv/tasks.py. A task is its place in a store, since modules share tasks.
-- * Release, for tasks/_version.py, on the lines of the files.
-- * Wheels, for `_build_binary` of tasks/build_.py: the plan of its container runs, and in
--   Wheels.Tags the renaming of the wheels by `_best_manylinux`.
-- * Setup, for the parts of setup.py that compute: the name macros, the dependencies of the
--   extension, the version and the compiler flags.
-- * Base holds the shared names and lemmas, Tests runs the definitions.
--
-- Regular expressions are scanners by clauses. Exceptions are `none`, or `raised` of `Outcome`.
-- The generator `tokens` is the list of all its tokens.
--
-- Fuel: `tokens` takes one unit for each line that it reads, and more than all files have lines
-- is enough, since no file is read twice. `pieces`, `find_args`, `check_rest` and `sub_from` take
-- one unit for each character of the text and are given its length.
--
-- Parameters, as the code is not in the repository: the requirement parser and its markers
-- (packaging; `Parsers`, `Markers`, `Parsed`), versions with their order (`Versions`), the
-- package index (`Index`), the output of `pip list`, `isdir` and `importlib.metadata`, and the
-- file system, a list of files. The expression `full_spec` is a parameter of the patcher
-- (`Specs`), of which only is assumed that its matches and the text between them make up the
-- text.
--
-- `hash_blocks`, `cmp_blocks` and `write` take one unit for each byte and one more, `values` one
-- for each value and one more, `keys_from` and `count_from` one for each record and one more;
-- `search` counts the slots of a table that are left.
--
-- System calls, memory and `fsync` are taken to succeed: a file is the list of its bytes, a write
-- appends to it, and a map shows the whole file. The offset 0xFFFFFFFF, which `cdb32_read` takes
-- for the current position, is not told apart. What `malloc` returns is not read before it is
-- written.
--
-- Not modelled: the Python types of cdbx/cdbtype.c and, but for the loop over the keys, of
-- cdbx/cdbiter.c, the size that `cdb32_mmap` maps, TOML files, calls of external programs,
-- logging, the imports of tasks and what invoke and setuptools do with them, and features and
-- settings. Digits above code point 0x65f, which `\d` of Python knows too, are no digits here. Of
-- Python's `%` operator only the conversions `%s`, `%(name)s` and `%%` are.
pub mod Base
pub mod Setup
pub mod Shell
pub mod Names
pub mod Version
pub mod Wheels
pub mod Scanner
pub mod ReqFile
pub mod FileModel
pub mod Inspection
pub mod Latest
pub mod Changelog
pub mod Places
pub mod Suggest
pub mod Replace
pub mod Merge
pub mod TaskTree
pub mod Release
pub mod Cdb
pub mod Tests
