-- ===== src/Lib.antt =====
-- skopeo: operations on container images and registries (cmd/skopeo).
--
-- Every command turns its flags into option structures, makes `types.SystemContext` values of them,
-- and calls the libraries of containers/image through them; `skopeo sync` lists the images of a source
-- and copies them one by one.
--
--   Prelude          tests, lists, integers, and Go strings as their bytes
--   Go               errors as values, functions with effects, retries, packages path and strconv
--   External         the libraries' types and functions, which are parameters
--   Flag             cmd/skopeo/flag.go
--   Options          the option structures and contexts of cmd/skopeo/main.go and cmd/skopeo/utils.go,
--                    with warnIfUsed of cmd/skopeo/utils.go
--   Flags            the flags that cmd/skopeo registers, and the structures that they write to
--   App              createApp, before and main of cmd/skopeo/main.go, adjustUsage of
--                    cmd/skopeo/utils.go
--   Policy           getPolicyContext of cmd/skopeo/main.go
--   Unshare          cmd/skopeo/unshare_linux.go and cmd/skopeo/unshare.go
--   Sync             cmd/skopeo/sync.go
--   Copy             cmd/skopeo/copy.go
--   Inspect          cmd/skopeo/inspect.go and cmd/skopeo/inspect/output.go
--   Layers           cmd/skopeo/layers.go
--   ImageSource      parseImageSource of cmd/skopeo/utils.go
--   Signing          cmd/skopeo/signing.go and cmd/skopeo/manifest.go
--   Login            cmd/skopeo/login.go and cmd/skopeo/logout.go
--   Action           commandAction of cmd/skopeo/utils.go
--   Delete           cmd/skopeo/delete.go
--   ListTags         cmd/skopeo/list_tags.go
--   Integration      integration/utils.go, integration/registry.go and integration/openshift.go
--   Tests            the theorems at concrete inputs
--
-- A function with effects maps a world to a result and the world that it leaves; the world is a type
-- that the libraries choose. Errors are values that keep the format and the arguments of their message
-- and what they wrap; no message text is computed. A nil pointer or interface that is called ends in the
-- error `nil_dereference`. Maps are lists in the order of their iteration. A flag is a place in
-- the structures of its command, and package pflag is a parameter but for the names and the places;
-- functions such as `load_copy` then copy the structures that the options of a command point to, since
-- no option changes after the flags are parsed.
--
-- Loops are recursions on lists, numbers and directory trees. The digits of a number n are taken with
-- fuel n + 1, which is enough since each step divides by ten. A test registry gets at most 50 pings, as
-- in the source.
--
-- The helpers of the integration tests run over one record of the operating system, External/Lab.antt; a
-- check that fails ends the test, which is an error. The goroutines of startMaster and newPortChecker
-- and the thread that starts them are a step relation, with the values in the channels that have a
-- buffer as numbers, and the sends of the others as common steps of two threads. The start of the
-- cluster takes how those waits end as an argument.
--
-- Not modelled: log messages, but for the warnings about deprecated flags, those of skopeo inspect and
-- the notice of skopeo layers; the threads that only log; the descriptions of commands and flags; and
-- what the vendored libraries and the regular expressions compute. The flags of package auth are a
-- parameter.
pub mod Action
pub mod App
pub mod Copy
pub mod Delete
pub mod External
pub mod Flag
pub mod Flags
pub mod Go
pub mod ImageSource
pub mod Inspect
pub mod Integration
pub mod Layers
pub mod ListTags
pub mod Login
pub mod Options
pub mod Policy
pub mod Prelude
pub mod Signing
pub mod Sync
pub mod Tests
pub mod Unshare
