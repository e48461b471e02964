-- ===== src/Lib.antt =====
-- A verification library for the `cloud-boot` command of this repository.
--
-- The program. `cloud-boot` (cmd/cloud-boot) has three commands. `push` uploads boot artifacts to an
-- OCI registry: `push artifact` one manifest for one platform, `push plan` a boot plan, `push index`
-- an image index over manifests that are there, `push multi` a manifest for each platform and then
-- the index (it calls the `Run` of `push artifact` and of `push index`), and `push modpack` packs a
-- tree of kernel modules into a compressed cpio archive. `build` cross-compiles the init program,
-- packs an initramfs, assembles a UKI (internal/uki) and makes a bootable ISO. `label` reads or
-- writes the label of a disk image.
--
-- The model. A Go function that calls the outside is an `Exec`: a function from the history of all
-- calls so far, with their answers, to a result and the longer history. A call (a read of a file, an
-- upload, a run of a program) is a constructor of `Call`, and `Env` answers it, as a function of the
-- history and the call, with a value or an error. A theorem that assumes something of `Env` says so;
-- the others hold for every behaviour of the file system, of the registry and of the programs that
-- are run, and what these do shows as an answer in the history. `defer` is `deferring`, and a file or a
-- temporary directory that is held stands in the history from the answer that opens it to the call
-- that closes it.
--
-- The command line is read by cobra, which is not in the repository. Each `Cmd` is a record with its
-- flags, their defaults and the `RunE`, and `main` takes a parameter `Cobra`: a function of the
-- command line that either refuses it, or prints a help text, or calls the `RunE` of one command that
-- names lead to in the tree, with options that were set, flag by flag, from the defaults, with the
-- arguments that the command takes and with all its required flags given. How cobra tells these apart,
-- how it reads a number or a truth value and what it prints is left open.
--
-- Files:
--   Base, Base/*        texts as lists of bytes, list and order lemmas, rulesets
--   Strings, FilePath   what the source uses of strings.SplitN, path and path/filepath
--   Json, Oci           json.Marshal of a flat map, with its escapes; the records of the OCI image specification
--   Effects, Effects/*  calls, histories, `Exec`, and rules to reason about them: `Triple` (what an
--                       action leaves), `Grows` (the history is only added to), `IsBalanced` (what
--                       is opened is closed), `IsHonest` (an error comes with a call that failed),
--                       `Occurs` (a call with its answer), `Only` (all calls are of one kind),
--                       `Costs` (how many calls are made at most), `Asks` (a call is
--                       made)
--   Cobra               the data that the program gives to cobra; Cobra/Execute: what it relies on;
--                       Cobra/Everywhere: what holds of all commands; Cobra/Fields: options that hold
--                       the value of a flag
--   Root                cmd/cloud-boot/root.go: `newRootCmd`; cmd/cloud-boot/main.go: `main`
--   Push/Cmd            cmd/cloud-boot/push/cmd.go: `Cmd`; Push/*/Cmd, Build/Cmd and Label/Cmd: the
--                       `Cmd` of each command, with its flags
--   Cliutil             cmd/cloud-boot/internal/cliutil/cliutil.go: `ParsePlatform`
--   Push/Artifact       cmd/cloud-boot/push/artifact/cmd.go: `Run`, `pushFile`
--   Push/Index          cmd/cloud-boot/push/index/cmd.go: `PlatformList`, `Run`
--   Push/Plan           cmd/cloud-boot/push/plan/cmd.go: `Run`
--   Push/Multi          cmd/cloud-boot/push/multi/cmd.go: `PathList`, `uniquePlatforms`,
--                       `derivePerArchRef`, `Run`; Push/Multi/Files: the files of a platform;
--                       Push/Multi/ArchTags: the tag of a platform, and what it names
--   Push/Modpack        cmd/cloud-boot/push/modpack/cmd.go and pack.go: `packModules`
--   Push/Closed         what the registry accepted, and when it refers only to what is there;
--                       Push/Tags: which manifest or index a tag names; Push/Spares: which tags a
--                       run leaves alone; Push/Checks: what is checked before the first call;
--                       Push/Options: what the flags mean
--   Build/Command       cmd/cloud-boot/build/cmd.go: `RunE`; Build/Opts: its types and its table
--   Build/Pipeline      cmd/cloud-boot/build/build.go: `Build`; Build/Cmdline, Build/Stub,
--                       Build/Init, Build/Initramfs, Build/Images: the functions it calls
--   Build/Progress      the order of the steps of a build, as a relation on histories;
--                       Build/Contents: the initramfs and its image, from the options on
--   Push/Modpack/Mirror a tree, and the entries that mirror it, as a relation
--   Archive             the entries that a cpio writer was given
--   Uki                 internal/uki/uki.go: `Build`, `Copy`
--   Label               cmd/cloud-boot/label/cmd.go: `RunE`
--   Fakereg             cmd/cloud-boot/internal/fakereg/fakereg.go: both registries of the tests;
--                       Fakereg/Log: the same answers, from the requests that were made
--   Tests               runs at concrete inputs, and the theorems applied to them
-- The modules below a component (Delivery, Laws, Entries, Cleanup, Faults, Balance, Costs, ...) hold
-- what is proved of it.
--
-- Choices. All loops are structural recursion over a list or a tree, so no fuel is used. An error
-- keeps its format and its arguments and is not formatted. A call that cannot fail in Go, as
-- `gzip.NewWriter`, is answered like any other. `filepath.WalkDir` walks a tree that `Env` gives for
-- the root, which stands for what the walk finds; the calls for each entry are in the model.
-- `sort.Strings` is an insertion sort. A platform of `seen` in `uniquePlatforms` is looked up in the
-- list of the platforms so far, which has the same keys. A map of the fake registry is a list of
-- pairs in which the first of a key counts. What `oci.ParseRef` reads of a text is left open; that it
-- reads a derived reference as it was printed, where the tag in it is one by the grammar of tags, is a
-- hypothesis of the theorem that needs it. The appender may refuse any stub.
--
-- Not modelled: the variable `logFatal` of main.go, which nothing calls (`osExit`, which is
-- `os.Exit`, is the exit status that `main` returns here), the text that cobra writes, the HTTP
-- server of the fake registry and the redirects of `http.ServeMux`, and the libraries that the source
-- calls (oci, cpio, gzip, the PE appender, diskimage, cobra), which are calls or parameters.
pub mod Base
pub mod Oci
pub mod Effects
pub mod Strings
pub mod FilePath
pub mod Json
pub mod Cliutil
pub mod Push
pub mod Tests
pub mod Label
pub mod Uki
pub mod Archive
pub mod Build
pub mod Fakereg
pub mod Cobra
pub mod Root
