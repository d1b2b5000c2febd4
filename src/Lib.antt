-- ===== src/Lib.antt =====
-- The logic of AmethystTool, a library that is loaded into the Steam client and unlocks content
-- for it. All paths are from the root of the repository.
--
-- The parts and how they interact. The client is hooked at functions whose places differ from
-- build to build. A pattern file, named by the hash of the client's library, says where they are.
-- It comes from a cache on the disk or from a chain of mirrors (Mirrors), its entries are
-- addresses or signatures that a scan finds in the loaded module (Patterns, and Search for the
-- scan of files), and a cached file that misses required functions is checked against the mirrors
-- at most once a day while its stamp can be read, where rules decide whether the new file may replace the old one (Refresh).
-- The hooked functions see the packets of the client, whose layout is found out from the packets
-- themselves (Packet), and change the rich presence of the user (Presence). Manifests of depots
-- come from an archive through a cache (Manifests), from a provider whose address is chosen by
-- Endpoint, or from other users (Donor). The package that the client sees (Package) follows the
-- depots that the Lua files give (LuaConfig) by a plan of what to add and remove (Reconcile), and
-- tickets are kept for one account (Account). Failed results of workshop calls are rewritten
-- (Workshop), and the donation of request codes reads its settings from a table (Donate). A bridge
-- takes the replies of a code server (Bridge). Copies of the library and its settings are put
-- under names that other tools look for (Alias).
--
-- Which file models what. A function keeps its name in lower case with underscores.
--   Base           the shared names: numbers, lists, byte strings and their searches, maps
--   Search         src/OSTPlatform/Windows/ByteSearch.cpp: FixedPatternScanner; Search.File models
--                  FindInFile and FindInFileRange
--   Numbers        src/OSTPlatform/Numbers.cpp and src/OSTPlatform/include/Numbers.h: the
--                  unsigned parsers
--   Template       ReplaceAll, of src/Utils/SteamMetadata/RemoteTomlLogic.h
--   Mirrors        the rest of RemoteTomlLogic.h; Mirrors.Fetch models BuildUrlTemplates, Fetch and
--                  FetchRemoteOnly of RemoteToml.cpp
--   Refresh        src/Utils/SteamMetadata/PatternRefreshLogic.h
--   Patterns       ParseSig, ScanModule and LookupInMap of src/Utils/SteamMetadata/PatternLoader.cpp,
--                  and src/Utils/Support/FnvHash.h; Patterns.Job models Revalidate with TouchStamp
--   Packet         UnpackRaw and LayoutResolver of src/Hook/NetPacketLogic.h and .cpp, the published
--                  state of src/Steam/NetPacket.h, and EnsurePacketLayout of
--                  src/Hook/Hooks_NetPacket.cpp; Packet.Probe models ProbeLayout and MatchingLayouts
--   Manifests      src/Utils/SteamMetadata/ManifestCacheLogic.cpp and .h
--   Donor          src/Utils/SteamMetadata/ManifestDonorLogic.cpp and .h
--   Presence       src/Hook/RichPresenceLogic.cpp and .h
--   Endpoint       src/Utils/SteamMetadata/ManifestUrlLogic.cpp and .h
--   LuaConfig      src/Utils/Config/LuaConfig.cpp: the tables and the operations on them;
--                  LuaConfig.Files models UnloadFile, ParseFile and the queues, LuaConfig.Script the
--                  functions that a script calls, LuaConfig.Query the queries of the hooks,
--                  LuaConfig.Reload the reload of directories, LuaConfig.History says what any
--                  sequence of calls should leave, and LuaConfig.Pinned which pin
--   Package        src/Hook/Hooks_Package.cpp and the vector of src/Steam/Structs.h;
--                  Package.Ownership models CheckAppOwnership and DumpOwnedDepots, and
--                  Package.Synced puts the files and the package together
--   Reconcile      src/Hook/PackageReconcileLogic.h
--   Alias          src/Utils/Config/CompatAliasLogic.cpp and .h
--   Account        src/Utils/Tickets/ForgeBaseCache.h
--   Workshop       src/Utils/SteamMetadata/UgcLogic.cpp and .h
--   Donate         src/Utils/Config/DonateConfigLogic.cpp
--   Bridge         src/Utils/Tokeer/TokeerParsing.cpp and .h, without ParseUri
--   Tests          the theorems at concrete inputs, and runs of the definitions
-- The modules below each of these hold its proofs and are named for what they show.
--
-- State. Code that changes state takes it as an argument and returns it: the cached file and the
-- addresses asked (Mirrors.Fetch), the stamp and the cached file (Patterns.Job), the published
-- word and the resolver (Packet), the disk, the recent 404s and the taken slots (Manifests), the
-- tables under the lock of the Lua configuration (LuaConfig) and the vector of the package
-- (Package). The loading of the start, which throws its queue of additions away, comes before the
-- package is hooked and is no event there. Calls that run at the same time are a relation of
-- atomic steps, each one access to the shared state (Manifests.Flight); members that are atomic in
-- the source are plain fields elsewhere, so one call runs at a time there.
--
-- What is a parameter. The answers of the network, the success of each call of the file system,
-- what an unchecked write leaves in the cached file, the clock, the image of a module, which
-- memory is readable, the hash of a library, the TOML parser, the parser of the protobuf header,
-- the printf of the C library, the Lua interpreter, what a package of the client holds, whether
-- its vector can be grown, and the scan and the path of a directory. Logging is left out
-- everywhere.
--
-- Numbers and fuel. Words are natural numbers with the wrap-around written out. Loops are
-- structural but for these: the scan of a text runs on fuel that is its length and a bit more,
-- which each round shortens (Search, Template); the loop over the chunks of a file runs on the
-- size of the file, as each chunk moves on by at least a byte; the scan of a module has one round
-- for each place that the signature fits; the decimal digits of a number are written with the
-- number as fuel; the reader of key values runs on the length of its input, and Presence.Rounds
-- shows that more changes nothing.
--
-- What is not modelled. The hooks, the pipe features and the platform layer are calls into Windows
-- and the client; the message handlers of Hooks_NetPacket.cpp need generated types. The TOML
-- configuration, the local achievements, the executable reader, the watchers and the generator in
-- tools/ipc_codegen are left out as well. A test of the manifest cache for a file that itself
-- fails, and a write of a manifest seen by another thread half done, are left out: the write of an
-- answer is one step, and goes through a temporary name of the thread.
pub mod Account
pub mod Alias
pub mod Base
pub mod Bridge
pub mod Donate
pub mod Donor
pub mod Endpoint
pub mod LuaConfig
pub mod Manifests
pub mod Mirrors
pub mod Numbers
pub mod Package
pub mod Packet
pub mod Patterns
pub mod Presence
pub mod Reconcile
pub mod Refresh
pub mod Search
pub mod Template
pub mod Tests
pub mod Workshop
