-- ===== src/Lib.antt =====
-- The library of package files of go-rpm: archives, leads, headers and file indexes, as they are
-- built, written and read. Each component is a module here, named below with the file of the
-- repository that it is about.
--
-- Io (no file of its own): what the components take from Go's library. A call that can fail is an
-- `Op S E A`, a function from a state to a result and the state afterwards; `do` blocks chain such
-- calls and stop at the first error, which is a value. A stream that is read is the bytes still to
-- come and what the stream reports behind them. io.ReadFull, binary.Read, io.Copy into
-- ioutil.Discard, hex.Decode and the big-endian encoding of integers are written out as they are
-- documented. An io.Writer is a parameter: any state with a function for `Write`, under the
-- contract `IsWriter` that io.Writer documents (the bytes taken are a beginning of those given, all
-- of them where there is no error), and `NeverFails` where a bytes.Buffer is meant.
--
-- Scpio (scpio/writer.go, scpio/reader.go): `Writer` and `Reader` of stripped cpio archives, with
-- the offset that each keeps, `new_header` and `fmt16`. Scpio.RoundTrip has the clients that write
-- and read a list of entries.
--
-- Tag (tag.go, types.gen.go): `TagHeader`, `Tag`, and `TagData` with a constructor for each Go type
-- that is a tagData, and one for nil, whose use is the error `nil_dereference`, that is, a panic.
-- Tag.Data has `Len` and `WriteTo`, Tag.Read has `make` and `ReadFrom`, and Tag.Getters
-- `StringArray` and its like. Tag.Format is `String` and Tag.Dump `Dump`: the texts that fmt,
-- strconv and hex.Dumper make of values are the parameter `Format`. Tag.Names (types_string.gen.go
-- and the constants of types.gen.go) is `TagType.String`, where a slice out of range is `none`, a
-- panic. How far a bufio.Reader reads ahead is the parameter `ahead`, of which `IsAhead` is asked.
--
-- Header (header.go): `Header` with its offset, region and tags; `Add` and its callers; the
-- regions; Header.Write has `WriteTo` in the source's order, part by part, and Header.Many
-- `WriteHeaders`. sort.Sort is the parameter `sort`, and `IsSort` is what it documents: a
-- permutation in ascending order of `Less`, and not that it is stable. Header.Layout describes
-- where the data lie, Header.Encoding the bytes of a whole header.
--
-- Reader (read.go): `Reader` with its stream and offset, `align`, the prefix (`header`), the tags,
-- the loop over the data, and `Next`. io.LimitedReader is `limited`. Headers go from Header to
-- Reader as bytes only.
--
-- Lead (lead.go, `Reader.Lead` of read.go): `Lead`, `NewLead`, `WriteTo` and `Reader.Lead`.
-- Lead.Package has a client that reads a lead and two headers, as cmd/rpmdump/rpmdump.go does.
--
-- Files (files.go): `prefixMap` with a Go map as an association list, `FileIndex`, `Add`, and the
-- lengths that `Dump` compares. filepath.Split is the parameter `split`. Files.Append has `Append`
-- and `FileIndexHeader`, Files.Mode `Mode` and `osMode`, Files.Letters `hexEncode`, Files.Dump
-- `Dump` with a tabwriter as a parameter, and its rows in an `Op` on the index, where an index out
-- of range is a panic. Header.Adds says which tags a sequence of `Add` leaves in a header,
-- Header.Room that they can be written and read.
--
-- Config (cmd/tar2rpm/config.go): `loadconfig` over the lines of a bufio.Scanner, which also says
-- what `Err` reports with so many lines to come. The map of loaders is an association list of keys
-- and of the values that the loaders point to. path.Join is a parameter.
--
-- Tar2rpm (cmd/tar2rpm/tar2rpm.go): `Package` is its `Config`; `senseFlags`, `provides`, `requires`
-- and `append`. Tar2rpm.Build has the payload header that `main` builds, Tar2rpm.Packages the
-- package that it writes, Tar2rpm.Main all of it, Tar2rpm.Index has `index`, where a tar.Reader is
-- the entries that it gives, each with the pieces in which io.Copy reads its data. The bufio.Writer
-- before standard output is part of its io.Writer. SHA-256 in hexadecimal, path.Join and
-- filepath.Split are parameters. Headers and the payload are built with Header, Files and Scpio as
-- the other components have them.
--
-- Rpmdump (cmd/rpmdump/rpmdump.go): `main` reads a lead and headers and prints them, `dump` among
-- them, with the error that each step ends in. The table that tabwriter makes of the rows of a file
-- index is a parameter, and standard output is any io.Writer.
--
-- Text (no file of its own): what the two need of Go's package strings.
--
-- Base: the lists, numbers and bit operations that all of them share.
--
-- Numbers: a uint16, uint32 or uint64 is a number with its bound written where it matters, and
-- arithmetic that can wrap does (`u32`, `% 2 ^ 64`). Go's int counts bytes that are there and is
-- taken not to wrap. Loops recur on the list or on the count that the source loops over. Only the
-- loop of `loadconfig` has fuel, one more than there are lines, which is enough since each round
-- reads a line: `out_of_fuel` is what it would return otherwise.
--
-- Not modelled: JSON (encoding/json and reflection) and with it -json of rpmdump, the text of
-- errors, `configMap` of the configuration reader (reflection), command lines and the files that
-- they name, and the script that generates the constants.
pub mod Base
pub mod Io
pub mod Text
pub mod Scpio
pub mod Tag
pub mod Header
pub mod Reader
pub mod Lead
pub mod Files
pub mod Config
pub mod Tar2rpm
pub mod Rpmdump
