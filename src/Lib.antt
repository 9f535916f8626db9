-- ===== src/Lib.antt =====
-- mobydig digs up the addresses of the containers around a container, and finds out which of them
-- answer to pings. These modules model its packages.
--
-- The parts of the program, and how they interact (cmd/mobydig/digging.go connects them):
--   mobynet.DiscoverAttachedNames asks Docker for the networks of a container and for the names on
--   them; a dig.Digger announces these names, resolves them on the connections of a
--   dnsworker.DnsPool, and sends what it finds on its news channel; a verifier.Verifier takes these
--   news as its input, has new addresses pinged by a ping.Pinger, and sends every name and
--   address with each quality that it gets on a news channel of its own; a dig.NamedAddressesMap
--   keeps the best quality of each name and address for the display.
--
-- Which module models which file:
--   Types.Quality, Types.Addr: types/quality.go, types/addr.go. Quality is a data type in the order
--     of its constants. NamedAddressValue and QualifiedAddressValue are records, and the interface
--     QualifiedAddress is the sum of both. An `error` is an Option of its text.
--   Mobynet: mobynet/mobynet.go. discover_attached_names is DiscoverAttachedNames, its loops are
--     network_loop, container_loop and alias_loop, and cntr_details looks into the cache. Labels,
--     Containers, Outcome and Returns are about these, Digits about the process id in a path.
--   Dig.Networks: dig/mobynet.go, AllFQDNsOnAttachedNetworks.
--   Dig.Digger: dig/dig.go. Step is DigFQDNs, the callbacks of its tasks, and StopWait; DigNetworks
--     are its runs, and open_workers is the call of dnsworker's New. News counts the messages
--     that are left, Occurrences those that were sent; Pending and Sources are about their quality
--     and where they come from, Completion about what can follow.
--   Dig.AddrMap: dig/addrmap.go. update, get and track are Update, Get and Track. View is the
--     abstract view of the map, from a name and an address to a quality; Invariant is about its
--     well-formedness, Tracking about lists of updates; Contents is about what Get returns, and
--     Highest about that after a list of updates; Sources is about where the contents come from.
--     Abstract is the map up to what it says of names and addresses, a quotient that forgets the
--     order of entries and of updates.
--   DnsWorker: dnsworker/dnsworker.go. Dial is New, Tasks are Submit, task and StopWait as a step
--     relation with Exclusive about it, Resolve is ResolveName with Answers about it.
--   Ping: ping/ping.go. verdict is the outcome of validate, announce and plain_address are what
--     ValidateQA and Validate submit, new and the options are New and its options. Threshold and
--     Verdict are about these. Stream is ValidateStreamContext with StopWait, a step relation;
--     its children Messages, Phases, Verdicts and Completion are about it.
--   Verifier.AddrCache: verifier/addrcache.go. update is Update; Invariant, Notice, Delivery
--     and Sources are about the cache and about what its consumers are told.
--   Verifier.Run: verifier/verifier.go, with the channel and the pool of the Pinger. Step is one step
--     of the goroutine of Verify, of the goroutine that Verify starts, or of a job of the pool.
--     Tokens, Counting, Invariant, Preservation and Phases hold the invariants, Delivery, Results,
--     Ending, Once and Cancel what follows from them; Sources and Told are about where messages come
--     from.
--   Pipeline: a digger whose news are the input of a verifier.
--   Cmd.Names, Cmd.Groups, Cmd.Render: cmd/mobydig/display.go and color.go. Names holds groupAndLabel,
--     groupName and sortFQDNs; group_names is groupNames, with place as the body of its loop; render
--     is the text that Render writes. Groups.Spec and Groups.Order relate the loop to a recursive
--     grouping, Groups.Result, Render.Columns, Render.Lines and Render.Total, and Render.Found
--     are about the results.
--   Cmd.Spinner: cmd/mobydig/spinner.go. SpinnerStep is a tick or the end of the goroutine
--     of Start; Spins are its runs, with Stop.
--   Cmd.Flags: cmd/mobydig/cmdroot.go, the flags with their defaults, and PersistentPreRunE.
--   Cmd.Shared: the slices that Get of dig/addrmap.go shares with the map, sorted by Render.
--   Cmd.Report: cmd/mobydig/digging.go. prepare is the start of DigAndReport up to its goroutines,
--     DisplayStep is a step of those that track and render. Start is about the former, Last about
--     what is displayed last, Sources about where that comes from, Completion about what can follow;
--     Verdicts puts it together with Pipeline, and Whole with Start and Mobynet.
--   Cmd.System: the goroutines that DigAndReport starts, with those that they start, interleaved. A
--     SystemStep is a step of the Digger, of Verify or of the display; what the one sends, the other
--     can receive from then on. Channels, Sends and Closing are about the channels; Refinement and
--     Sequential relate these runs to those of each part alone, Return is about the state in which
--     DigAndReport has returned, Termination and Completion about how it comes to that, Verdict,
--     Soundness and Exact about what is shown. Spinning puts the goroutine of the spinner beside
--     these: a ProgramStep is a SystemStep or a SpinnerStep.
--   Cmd.Command: cmd/mobydig/main.go and the command of cmdroot.go; main is given cobra's Execute.
--   Messymoby: messymoby/rmtestcntrs.go and rmdupnets.go, and Cleanup of client.go. The result of a
--     function is the removals that it asks of Docker. Maps is about the two maps of the latter file
--     and Loop about its loops, Duplicates and Dead about what is removed.
--   Prelude: lists and texts over the native numbers, Go maps as association lists, the order of
--     texts, the sorting of slices, and the names that the modules share. Tests: runs at concrete
--     inputs.
--
-- Conventions, bounds and fuel:
--   A Go string is the list of its bytes. A Go map is an association list in the order of first
--   insertion; the order in which Go walks a map is open.
--   Goroutines are step relations: a step is what happens between two operations on a channel or
--   under a mutex, and all interleavings of steps are runs. A send that blocks is a step that has not
--   happened yet, so that the sizes of channels and pools only bound which steps can come next. A
--   select that may choose between an ended context and a send has a step for each choice; Update,
--   which sends in a loop, is given the number of sends before it chooses the context.
--   sort.Slice is an insertion sort, which keeps the order of elements of which neither is less; Go
--   leaves that order open. A call of Render is one step, and so is its sorting of shared slices.
--   The only fuel is that of Mobynet.digits, which prints a number n with n + 1 as its fuel: each
--   round divides by ten, so that it ends before. The products in Ping.required and Ping.request
--   are those of 64-bit integers, and wrap around.
--
-- Parameters, for code that is not of this repository: the pinger of pro-bing, the switch of network
--   namespaces by lxkns and the end of the context (Ping.Surroundings), the DNS client
--   (DnsWorker.Resolve.DnsEnv and the dial of DnsWorker.Dial), the Docker client (Mobynet.Client,
--   Messymoby.MobyClient), net.ParseIP as the bytes of an address (`ip`), the styles of termenv
--   (Cmd.Render.Styles), cobra's Execute (Cmd.Command, with its documented behaviour as IsCobra).
--   Of the worker pools it is used that they run each task submitted once, no more at once than
--   their limit, and that their StopWait returns when no task is left.
--
-- Not modelled: the parsing of flags by cobra; the terminal writer uilive; that Render, which holds
--   no lock, can run in the middle of an Update of the same slices; the calls of docker compose for
--   the tests, in messymoby/client.go and test/args.go.
pub mod Cmd
pub mod Dig
pub mod DnsWorker
pub mod Messymoby
pub mod Mobynet
pub mod Ping
pub mod Pipeline
pub mod Prelude
pub mod Tests
pub mod Types
pub mod Verifier
