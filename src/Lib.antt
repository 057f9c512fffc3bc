-- ===== src/Lib.antt =====
-- wird: the resolution of Arabic words to their roots (jidhr/pkg/root), the service that answers with
-- it over HTTP (jidhr/cmd/rootd), the build of the corpus with the gate that it has to pass
-- (server/cmd/etl), the verification of the files it is built from (server/cmd/ingest), the check of
-- English senses against a corpus (server/internal/rootsense), and the server's accounts, progress and
-- exchange with devices (server/internal/store).
--
-- The resolver answers a written Arabic word with its root. `Resolve` of jidhr/pkg/root/root.go walks a
-- ladder over a store: the exact spelling, the normalised spelling, the lemma, the stems that are left
-- when clitics are peeled off, and the roots that the corpus attests the spelling to. A word that no
-- rung answers is reported with the candidates that the templates read out of its letters.
--
-- The service rootd puts the resolver behind three routes: one word, a batch of words, and the record of
-- a root. Before them stand a limiter, with a bucket of tokens for each caller, and a key.
--
-- The server lands a batch of ops that a device made, each in a transaction of its own that writes the
-- id of the op into a log beside its effect; `Apply` of server/internal/store/sync.go answers for each.
-- `Changes` sends the rows of a reader back, page by page, by their number in the server's own order.
-- A report of a reader waits in an inbox until `SweepReports` moves it into the table where `TriageReport`
-- records what the operator made of it. This part calls none of the others.
--
-- The corpus is built from downloaded files. `verifyRecitation` of server/cmd/ingest/verify.go counts
-- what their word timings cover; `load` of server/cmd/etl/load.go makes the rows of the corpus from
-- them, each recitation by `Spans` of server/internal/timings/timings.go, which both programs call;
-- `pinFrenchGlosses` of glosses_fr.go lays the cards of a French dictionary beside the words, by a longest
-- common subsequence; and `check` of check.go is the gate before the rows are written.
--
-- A reader of the server is a row that `ReaderFor` of server/internal/store/store.go mints at the first
-- sign-in and `DeleteReader` forgets; `Progress` shows what the reader has understood.
--
-- A sense of a root is checked against the glosses of the root's words: `Check` of
-- server/internal/rootsense/score.go reduces both to stems and counts the occurrences that the sense
-- explains, and `Verdict` names what a sense that does not pass the bar falls short of. `Bucket` of
-- corpus.go makes the roots with their glosses from the words of the corpus. Whoever writes a sense
-- reads the article that `Look` of server/internal/lane/lane.go finds for the root.
--
-- The files, and the code that each is about:
--   Text, Text/*           words as lists of code points, and what the code takes from Go's packages
--                          strings and unicode. TrimSpace and the order of strings are written out;
--                          the tables of unicode (Cf, Mn, letters, Arabic) are the parameter `Unicode`,
--                          and `IsUnicode` names what is used of them
--   Root/Types             jidhr/pkg/root/types.go: the records of an answer
--   Root/Normalize         jidhr/pkg/root/normalize.go: normalize, folded, dropped, TrimMarks, key,
--                          indexKeys. Normalize/Fixed and Normalize/Keys hold its theorems
--   Root/Strip             jidhr/pkg/root/strip.go: stripAffixes and its tables. Strip/Spec says what
--                          peeling is, on words alone; the other children prove the walk right
--   Root/Wazn, Root/Pattern  jidhr/pkg/root/pattern.go: the templates and matchPattern
--   Root/Store             jidhr/pkg/root/store.go: the interface Store, as a record of functions
--   Root/Memory            jidhr/pkg/root/store.go: NewMemoryStore and the methods of MemoryStore
--   Root/Resolve           jidhr/pkg/root/root.go: lookup, fromLetters, fromEntry, fromShared,
--                          IsArabicWord; Resolve/Ladder is Resolve itself. Resolve/Spec says what an
--                          answer rests on, over the store alone
--   Root/Languages         jidhr/pkg/root/store.go: Languages
--   Rootd/Limiter          jidhr/cmd/rootd/server.go: allow and sweep. Limiter/Ideal is the limiter
--                          without a map that it refines, Limiter/Exact what is used of float64,
--                          Limiter/Bounds what follows for a caller
--   Rootd/Answers          the same file: the errors, requests and responses. The JSON decoder, ToLower
--                          and SplitHostPort are the parameter `Http`
--   Rootd/Service          the same file: the handlers, authenticated, rateLimited and routes
--   Rootd/Outcomes, Rootd/Batches, Rootd/Gate, Rootd/InMemory   theorems on the handlers, which use
--                          those on the resolver
--   Sync/Tables            server/internal/store/sync.go: ops, results, the bodies of the kinds, and the
--                          rows of the tables. The JSON decoder and the formats of the libraries are the
--                          parameter `Formats`; the clock and the errors of the database are `Run`
--   Sync/Kinds             the checks of each kind and the rows that its SQL statement leaves
--   Sync/Apply, Sync/Transaction, Sync/Batch   applyKind and recordOp; applyInTx, attempt and classify;
--                          Apply, applyOne and countOutcome. recordOp is
--                          that of server/internal/store/store.go
--   Sync/Writes            the steps that an op may take on the tables, as a relation
--   Sync/Once, Sync/Replay, Sync/Isolation   theorems on the transaction, the log and the readers
--   Sync/Changes           Changes, its SQL statement and its cursor; Changes/Cursor, Changes/Pages and
--                          Changes/Following hold its theorems. Text/Decimal is FormatInt and ParseInt
--   Sync/Reports           SweepReports of the same file, and Reports and TriageReport of
--                          server/internal/store/admin.go; Reports/Triage holds their theorems
--   Senses/English         server/internal/rootsense/score.go and corpus.go: the English tables
--   Senses/Stem            score.go: plural, stem, tokens, related, Content
--   Senses/Corpus          corpus.go: the data and slotOf; score.go: company, rootsOf, rootsUsing
--   Senses/Bucket          corpus.go: stemFeatures and Bucket, with the JSON decoder as the parameter
--                          `Reader`; Bucket/Words and Bucket/Roots hold its theorem
--   Senses/Miss            miss.go: BiggestMiss
--   Senses/Glosses         score.go: the loop of Check on slots and glosses, and explained
--   Senses/Clauses         score.go: the loop of Check on the clauses of a sense
--   Senses/Score           score.go: the rest of Check, Verified and Verdict. The type float64 and its
--                          operations are the parameter `Floats`
--   Lane/Tables, Lane/Articles   server/internal/lane/lane.go: Fold, arabic, Articles and Look. What the
--                          regular expressions find in the files is the data of a `Division`: whether
--                          the tag is of type root, its n= without &amp;c. and split on joinRe, and the
--                          text without its tags; Articles/Filed holds the theorems
--   Etl/Ints               the integers that times are; their order
--   Etl/Spans              server/internal/timings/timings.go: Spans. Spans/Walks says what a file of
--                          timings is, Spans/Words what words its slots name
--   Etl/Rows, Etl/Recite   server/cmd/etl/load.go: normalizeSegments, loadRecitation, the loop of Load
--                          over recitations, and Load of timings.go
--   Etl/Corpus             load.go, irab.go, senses.go: the rows
--   Etl/Morphology, Etl/Buckwalter   load.go: loadMorphology, lemmaOf, verbForm, arabicRoot,
--                          translitRoot; lemma.go: lemmaArabic; irab.go: irabRow, posCode
--   Etl/Verses, Etl/Loading  load.go: surahOf and the paths; load, with its rows for chapters, verses
--                          and words
--   Etl/Align, Etl/Glosses   glosses_fr.go: alignLCS; the pages, letters and pinFrenchGlosses. What the
--                          regular expressions and Go's packages html and unicode do is `PageReader`
--   Etl/Gate, Etl/Gate/Parsing   check.go: check with checkFrenchGlosses and checkLemmas; checkIrab.
--                          Gate/Sound, Gate/Texts, Parsing/Exact and Gate/Recitations hold theorems
--   Ingest/Verify          server/cmd/ingest/verify.go: verifyRecitation, countSegments, maxEnd
--   Ingest/Order           verify.go: checkRevelationOrder
--   Store/Readers          server/internal/store/store.go: ReaderFor, EnsureUser, DeleteReader
--   Store/Progress         store.go: Progress and juzOf
--   Samples                a part of the Unicode tables, a small corpus, and the theorems applied to them
--
-- A Go map is an association list, whose first entry for a key counts; where the code ranges over a map,
-- the order of the list is the order of the range. An error of a store is `not_found`, the program's
-- ErrNotFound, or `broken` with a code. A count of occurrences is a natural number. The position of a
-- code point in a text is its position in the list, where Go converts to runes first.
--
-- The limiter runs on the parameter `Levels`, which stands for float64; `IsLevels` names what is
-- used of it, which rounding keeps, on numbers without NaN. The bound on what it lets through is of
-- exact numbers, with a rate that is any fraction; there the rounding of floats is left out.
-- Requests reach the limiter one after the other, as its mutex has them do. A request is what the
-- mux makes of it: its route, and what the handler reads. Traces, logs and the words of messages are
-- left out.
--
-- A table is a list of rows. An instant is a number of nanoseconds since Go's zero time, and an id
-- of an aya, a sura or a word is a natural number. `fails` of a run gives the error of the n-th
-- statement of the transaction, any error at any statement: a broken constraint, a text that is no
-- uuid, a lost connection; a commit that answers with an error may have landed. What an op that
-- fails has written by then is any table. The SQLSTATE is split into its class and the rest. The
-- words of a refusal, the log lines, the ids that the database mints are left out, and the outcomes
-- are those of one day. The column seq is there for Changes alone, whose tables are lists of rows
-- with their numbers.
--
-- The stemmer sees lower case ASCII, where a byte is a code point; its outer loop runs on as much fuel as
-- the word has letters, and each round takes one at least. A map to true is a list without repetition,
-- and the memory of rootsOf, which holds what it would compute again, is left out.
--
-- The walk of stripAffixes runs on fuel, (n + 1)² + 1 for a word of n letters. Each step takes one span
-- off the queue, a span enters the queue once, and there are at most (n + 1)² spans.
--
-- The longest common subsequence is the table of the code, read at i and j. The loop over the ayas of
-- the French glosses runs on as much fuel as there are words, and each round takes one at least. Times
-- and counts that the code may let fall below 0 are integers without bounds; a row of the corpus has a
-- natural number for its id, which is 1000 times that of its aya plus its place. The files are what their
-- decoders give; a file that is missing or is not decoded is `none`. The tallies of a recitation that
-- verifyRecitation refuses, which its report carries beside the refusal, are left out.
--
-- Not modelled: the decoding of corpora from JSON, the text of error messages, the start of rootd,
-- the counts of the dashboard, the other SQL of the server, the reading of corpora for the check of
-- senses and its calibration, checkSenses, which runs it on the built corpus, the counts of words and
-- of morphology in the ingest, the table that names the roles of the parsing, the other commands, the
-- HTTP interface of the server, and the mobile application.
pub mod Etl
pub mod Ingest
pub mod Lane
pub mod Prelude
pub mod Root
pub mod Rootd
pub mod Samples
pub mod Senses
pub mod Store
pub mod Sync
pub mod Text
