-- ===== src/Lib.antt =====
-- buildbox-common, the library that the BuildBox tools share: a client of a content-addressable
-- store (CAS) over gRPC, the retrying of its calls, the log stream that a runner writes, the trees
-- of directories that are stored, the options of a connection, paths, and metrics.
--
-- The parts, and how they use each other:
--   * Path: `FileUtils::normalizePath`, `joinPathSegments`, `joinPathSegmentsNoEscape`, `pathBasename`
--     and, in Path/Relative, `makePathAbsolute` and `makePathRelative`
--     (buildbox-common/buildboxcommon/buildboxcommon_fileutils.cpp). A path is the list of its bytes.
--     Path/Split has the segments by structural recursion, Path/Normal the normal form, Path/Print
--     the way back to a text, Path/NoEscape the guard against leaving a directory.
--   * StringUtils: the trimming of texts (buildboxcommon_stringutils.cpp).
--   * Retrier: `GrpcRetrier` (buildboxcommon_grpcretrier.cpp), a loop around a call of a server. The
--     server is the record `Service`: a state of the world and a function on it.
--   * LogStream: `LogStreamWriter` (buildboxcommon_logstreamwriter.cpp), which makes each of its calls
--     through a retrier. The gRPC stub is the record `ByteStream`.
--   * Digest: `Digest` and its equality (buildboxcommon_protos.h).
--   * Client: parts of `Client` (buildboxcommon_client.cpp). Client/Batches is `makeBatches`,
--     Client/Requests the issue of a request through a retrier, Client/Missing
--     `findMissingBlobs`, and Client/Upload `uploadBlobs` and `batchUpload`, which put the
--     batches to use. Client/Download is `fetchString`, `batchDownload` and `downloadBlobs` into
--     a result or into files, and Client/Stream the upload of a text, or of an open file, in
--     chunks. The stubs are the records `MissingStub`, `Backend`, `Source` and, as for
--     LogStream, `ByteStream`.
--   * Connection: `ConnectionOptions::parseArg`, `putArgs` and the setters
--     (buildboxcommon_connectionoptions.cpp).
--   * CommandLine: `CommandLine` with its types (buildboxcommon_commandline.cpp and
--     buildboxcommon_commandlinetypes.h). Types has the specification of the arguments, Values
--     `buildArgumentValue`, Options `parseOptions`, Parse what follows it, Getters the getters, and
--     Channel `ConnectionOptionsCommandLine`, which fills in a `ConnectionOptions`. The type `double` and
--     `std::stod` are the record `Doubles`. What the pointers of a specification are written is a list.
--   * Numbers: `std::stoul`, `std::stoi` and `std::to_string`, for the other parts.
--   * Merklize: `NestedDirectory` (buildboxcommon_merklize.cpp); Merklize/Messages is `to_digest` and
--     `to_tree`, with protobuf's serialization and the hash for parameters.
--   * MergeUtil: `createMergedDigest` (buildboxcommon_mergeutil.cpp), which flattens two trees of
--     directories into a map from paths and adds what it holds to a `NestedDirectory`.
--   * Metrics: metric values and collectors; Metrics/Config is the parsing of the options and the
--     making of a publisher (buildbox-common/buildboxcommonmetrics).
--   * Directories: `FileUtils::createDirectory` (buildboxcommon_fileutils.cpp) over an abstract `mkdir`,
--     the record `Disk`. Directories/Texts cuts the text of a normal form at its last slash.
--   * Logging: `Logger` and the table of its levels (buildboxcommon_logging.cpp).
--   * SystemUtils: the waiting for a child, the search of `$PATH` and the working directory
--     (buildboxcommon_systemutils.cpp).
--   * Runner: `Runner` (buildboxcommon_runner.cpp). Runner/Options is `parseArguments`, which hands an
--     argument first to the subclass and then to Connection; Runner/Main is `main`, over the record
--     `Host`; Runner/Execution is `executeAndStore`, which waits by SystemUtils, over the record
--     `Executor`; Runner/Outputs is `createOutputDirectories`, by Directories, and `uploadOutputs`, by
--     Client/Upload.
--   * StagedDirectory: `StagedDirectory`, which captures the outputs of a command by callbacks, the
--     record `Capture`, and in StagedDirectory/Open `StagedDirectoryUtils`, which opens a path one
--     component at a time, over the record `Opener` (buildboxcommon_stageddirectory.cpp).
--   * Prelude: what the parts share: tests on numbers, lists, texts as lists of bytes, maps as
--     lists of pairs, and integers.
--
-- State is passed explicitly. An exception is a value: `none` in an `Option`, or a constructor of
-- `Attempt` (Client/Requests) and `Reply` (LogStream). A lambda that captures variables is a service
-- whose state holds them.
--
-- Bounds and fuel. Numbers do not wrap, but in Client/Batches, where `size_t` is 64 bits wide, and
-- in Metrics/Config, where a port is cut to 32. Of the loops that run on fuel, that of
-- `normalizePath` has fuel for each byte, of which each round but the last drops one, and that of
-- `issueRequest` has fuel for the first call and for each retry that the limit allows; that both
-- suffice is proved. `makeBatches` has fuel for each digest, and each of its rounds takes one at
-- least. `stuck`, for a retrier without fuel, is thus never reached. The recursion of
-- `buildFlattenedPath`, which ends because no hash is part of what it is the hash of, goes to a
-- given depth, and ends with `too_deep` beyond it; MergeUtil/Depth says what depth is enough. The
-- loops of the command line run over the arguments. The loop of an upload has fuel for each byte. The
-- waits for a child have a given fuel; how much is enough depends on how often they are interrupted.
-- The size of the buffer for the working directory is cut to 32 bits, and has fuel for each doubling.
-- `createDirectoriesInPath` has depth for each byte of its path.
--
-- Not modelled: what only calls the system, on files, processes, threads and clocks, or builds gRPC
-- channels; the messages of the log; the hash functions; the copy of BLAKE3. The downloads of the client
-- into a temporary directory and the creation of channels are left out, and so are the two classes that
-- stage a directory, and what a child of the runner does between fork and exec.
pub mod Prelude
pub mod Path
pub mod StringUtils
pub mod Numbers
pub mod Retrier
pub mod LogStream
pub mod Digest
pub mod Client
pub mod Connection
pub mod CommandLine
pub mod Metrics
pub mod Merklize
pub mod MergeUtil
pub mod Logging
pub mod Directories
pub mod SystemUtils
pub mod Runner
pub mod StagedDirectory
