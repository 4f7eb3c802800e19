-- ===== src/Lib.antt =====
-- gazetteer: given a French address, sources are queried in parallel and their results are
-- gathered in a dossier. This library models the parts of the program that carry its logic.
--
-- The shared modules: Prelude (numbers, lists, dictionaries, int32 and int64, strings as bytes),
-- Errors (Go's error trees, which errors.Is and errors.As search) and Floats (float64 as an
-- abstract type).
--
-- Circuit (helpers/circuit): the process-wide flags, trip counters, registry and log are a
-- record, World, that every operation takes and returns; a *atomic.Bool is an address into it, so
-- breakers share flags. Transport is TransportCircuit, Content is ContentStreakBreaker, Window is
-- RateWindow and Fetcher is HTTPFetcher, whose HTTP client and clock are arguments. Counters of
-- type int32 wrap as in Go; the theorems that need them exact bound the history by 2^31. Errors
-- of url.Error are searched on fuel, the size of the error tree, which is enough since each round
-- goes into a part of it.
--
-- Status (gazetteer/source.go, classifyErr of gazetteer/gazetteer.go) classifies error trees.
-- Dossier (gazetteer/dossier.go, gazetteer/result.go) is the result of a collection and its
-- readings; a payload of Go's type any is of a type V, with its methods as parameters; Wire is
-- its JSON, with what encoding/json does to values and the registered factories as parameters.
-- Client (gazetteer/gazetteer.go) has the Builder, runOne (Run), and the goroutines of collect
-- (Collect) as events in an order that the scheduler chooses: a Source is a function of its
-- context and the time, and the context of a Collect ends at a known time or never. Slots,
-- Recorded, Complete, Progress and Delivery are about every such order. Memcache
-- (helpers/kvcache/memcache) is the bounded cache: the map is the list of its keys and the
-- recency list holds the rows. The loop of makeRoom is on fuel, the number of rows, which is
-- enough since each round removes one. Kvcache (helpers/kvcache) is the interface Cache with the
-- promises of its documentation, and Kvcache.Memory shows that the memcache keeps them.
-- Httpx.Retry (helpers/httpx/retry.go) is the retry loop, structural in the attempts left: the
-- inner transport, the clock, the jitter and the moment the context ends are functions of the
-- attempt, and durations are int64 that wrap. Httpx.Prune (helpers/httpx/prune.go) is the pruning
-- of the disk cache past the scan of its directory. Httpx.Cache (helpers/httpx/cache.go) is the
-- disk cache: the two files of an entry are in two dictionaries, the upstream is a function, and
-- any write may fail; Cases takes RoundTrip apart, Clean and Others are about any sequence of
-- requests, Reuse and Revalidate about a later one. Fallback (helpers/fallback) is Walk over a
-- ladder of tiers.
--
-- Fetch (gazetteer/fetch.go) is FetchUpstream, whose errors Status classifies. Communes
-- (helpers/communes: resolve.go, arrondissement.go, city_zip.go) has the postal codes, with the
-- embedded tables as parameters. Banx (helpers/banx: cache.go, dept.go, geocode.go) is the cached
-- geocoder over any lawful Kvcache; Resolve (insee_resolver.go, resolve.go) is the cascade that
-- finds a commune and Position (resolve.go, precision.go) the floors on a position, over any
-- float64. Dvf (sources/dvf: memo.go, sections.go, source.go) is the memo of one query and the
-- fan-out over sections that fills it, one section after the other: the goroutines of
-- fetchSections touch different keys, and the pool that they append to is any reordering of the
-- one in the order of the sections (IsPooled). Dvf.Matcher (sources/dvf/matcher.go) is the filter
-- of a cohort. Cadastre (sources/cadastre: cache.go, bati.go) is the cache of building
-- footprints, where a look of a call and the end of a flight are events in any order: its loop is
-- on fuel, the number of rows, which each round makes fewer. Stats (helpers/stats) is MedianInt.
--
-- Not modelled: the parsers and transforms of the data sources, the rest of the HTTP stack, the
-- command line, geometry, address parsing, and everything that reads or writes files or the
-- network: these are glue over the standard library, floating-point work or data.
pub mod Prelude
pub mod Errors
pub mod Floats
pub mod Cadastre
pub mod Circuit
mod Tests
pub mod Stats
pub mod Status
pub mod Banx
pub mod Communes
pub mod Dossier
pub mod Client
pub mod Kvcache
pub mod Memcache
pub mod Dvf
pub mod Fetch
pub mod Httpx
pub mod Fallback
