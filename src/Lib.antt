-- ===== src/Lib.antt =====
-- rpki.net is a toolkit for the resource public key infrastructure: a certification authority
-- (rpkid with its database irdb, publication server pubd, root server rootd and the command line
-- rpkic), a relying party (rcynic) that validates the published objects, and the server of the
-- rpki-router protocol that feeds what was validated to routers. All of these compute with sets of
-- Internet numbers: a certificate holds sets of AS numbers and addresses, a ROA holds prefixes,
-- rpkid decides with set differences what to issue and what to revoke, and rcynic and the router
-- protocol speak of prefixes. This library is about that common core, rpki/resource_set.py, and
-- about the router protocol: its messages (rpki/rtr/pdus.py), the sets that the generator makes of
-- validated objects and writes to files (rpki/rtr/generator.py), the server that answers from these
-- files (rpki/rtr/server.py), the channel that cuts a stream of bytes into messages
-- (rpki/rtr/channels.py), and the client with its tables (rpki/rtr/client.py). It is also about the
-- publication server: its store (rpki/pubdb/models.py) and how it processes the messages of
-- clients (rpki/pubd.py), and about the tasks of rpkid, how they are queued, postponed and waited for
-- (rpki/rpkid_tasks.py, rpki/rpkid.py).
--
-- Files and code:
--   Result.antt            exceptions as values; an assertion that fails is `assertion_error`.
--   Resource/Range.antt    `resource_range` and the limits of its numbers (`datum`). An IP address
--                          beyond its class raises OverflowError, as the IPAddress type of
--                          ext/POW.c does; AS numbers have no upper limit.
--   Resource/Set.antt      `resource_set`: `canonize` and the constructor from a list of ranges.
--   Resource/Comm.antt     `_rsplit`, `_comm`, `intersection`, `difference`.
--   Resource/Union.antt    `union`, `symmetric_difference`.
--   Resource/Query.antt    `contains`, `issubset`, `issuperset`, and the comparisons. Ranges of
--                          different classes are told apart by the class of the set that holds them:
--                          comparing two raises AssertionError, comparing an address with a range
--                          TypeError, as the IPAddress type of ext/POW.c does.
--   Resource/Prefix.antt   `prefixlen`, `can_be_prefix`, `make_prefix`, `chop_into_prefixes`.
--   Resource/Roa.antt      `roa_prefix`, `roa_prefix_set`, and both ways between those sets and
--                          resource sets.
--   Resource/Bag.antt      `resource_bag`: three sets that travel together.
--   Rtr/Bytes.antt         what `struct.pack` and `struct.unpack` do with the formats of pdus.py.
--   Rtr/Pdu.antt           the classes of PDUs, `version_map` and the methods `to_pdu`.
--   Rtr/Reader.antt        `ReadBuffer`, `got_header` and the methods `got_pdu`.
--   Rtr/Compare.antt       `PDU.__cmp__`, the order of the wire formats.
--   Rtr/Check.antt         the methods `check`, the limits of the timing parameters, `EndOfDataPDU`.
--   Rtr/Generator.antt     `from_roa`, `from_certificate`, the end of `parse_rcynic`, `save_axfr`,
--                          `save_ixfr`, `seq_ge`.
--   Rtr/Current.antt       `mark_current` and `destroy_old_data`.
--   Rtr/Server.antt        `ServerChannel` and the methods `serve`; Rtr/Text.antt has the texts of
--                          Error Reports and of the names of files.
--   Rtr/Channel.antt       `PDUChannel`, with what asynchat does with the terminator.
--   Rtr/Client.antt        `ClientChannel`, the methods `consume`, and the tables of its database.
--   Rtr/Session.antt       no code of its own: generator, server, channel and client together.
--   Pub/Store.antt         published objects, `Delta.publish`, `Delta.withdraw`, `Delta.activate`.
--   Pub/Handler.antt       the transaction of `client_handler`.
--   Tasks.antt             `AbstractTask`: `start`, `wait`, `waiting`.
--   Tasks/Scheduler.antt   `task_add` and `task_loop` of rpkid.py.
-- Sorted, Unique and the child modules hold the proofs; the modules whose names end in Examples hold runs
-- and the theorems at concrete inputs. The other modules use the sets of Resource/Set through the
-- predicates of Resource/Set/Valid: `IsValid` for a set in canonical form that its class can hold,
-- and `IsSetWith` for a result that is such a set and holds the numbers of a test.
--
-- A method that sorts or merges its set in place returns the set as it is left, beside its result.
-- What a set is left as when a method raises is not modelled.
--
-- Loops run on fuel, and the theorems on them are about the fuel that the code is given, so that
-- they also say that it is enough: `_comm` has four rounds for each range, the loop of `union` one
-- round for each range, the binary search one round more than there are ranges, the loop of
-- `prefixlen` one round more than an address has bits, the cutting of a range two rounds more than
-- the range has addresses between its ends. The loop of `start_new_pdu` has one round more than there
-- are bytes in the buffer, and so has `receive`, in which each round takes a byte at least.
--
-- Parameter: `int_log n` stands for `int(math.log(n, 2))` in `chop_into_prefixes`, which is computed
-- in floating point. Where a theorem needs it, it is assumed that 2 ** int_log(n) <= n.
--
-- The reader of PDUs is explicit state passing: a callback takes the buffer and returns it with a PDU
-- or none. A PDU is a value, and its wire format is not cached.
--
-- A directory of the server is a function from names to contents, of which none stands for a file that
-- cannot be opened; the numbers of a current file are read as numbers. The tables of a client are
-- lists of the rows of one cache. Parameters: the time `now` of a client, and the random bits of a
-- new nonce.
--
-- In the publication server the hash, the decoding of Base64, the RelaxNG schema of deltas, and what
-- is logged of an object, which may raise, are parameters; what holds of them is only what the
-- statements say. A client's URI space is given by a function from the keys of clients.
--
-- Not modelled: reading and printing of text, sets of which a range is `None`, negative numbers,
-- sockets, pipes and logging, the files that the publication server writes, what the tasks of rpkid do,
-- and the other parts of the toolkit.
pub mod Prelude
pub mod Result
pub mod Resource
pub mod Rtr
pub mod Pub
pub mod Tasks
