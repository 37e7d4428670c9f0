-- ===== src/Lib.antt =====
-- paclink-unix: a mail transport that exchanges messages with Winlink stations by the B2F protocol.
-- This library models the program's own core, in C, and states what makes it correct.
--
-- The parts and how they interact. A session (wl2k.c) runs over a byte stream. The station whose turn
-- it is offers up to five messages (b2outboundproposal), each by a line with its message id and
-- sizes, and a line with a checksum; the other station's inbound_parser collects the lines, looks the
-- ids up in the database of received ids (mid.c) and answers each by a character; the messages that
-- are wanted then follow in blocks with a checksum (putcompressed, getcompressed), compressed by
-- LZHUF with a CRC (lzhuf_1.c). All bytes are held in growing buffers (buffer.c).
--
-- The files:
--   Common     names of the libraries, Boolean tests on numbers, lists over native numbers
--   Buffer     buffer.c. `Buffer` is struct buffer with its whole block; `new`, `addchar`,
--              `addstring`, `addbuf`, `setstring`, `rewind`, `iterchar`, `lastchar`, `truncate`,
--              `getstring`, `getline` and `buffer_length` are the functions of the same names behind
--              buffer_. malloc and realloc are the parameter `Memory`.
--   Strutil    strutil.c, the four functions under their names
--   Number     printf of numbers and strtoul, as the program uses them: the C library
--   Proposal   wl2k.c: struct proposal, parse_proposal, the line of an offer
--   Mid        mid.c: record_mid, check_mid, expire_mids, generate_mid. Berkeley DB is the parameter
--              `Mid.Hash.Database`, a record of its operations and their laws; the clock and random()
--              are parameters.
--   Stream     wl2k.c: getrawchar, and the results of a function that reads from the connection
--   Transfer   wl2k.c: getcompressed, putcompressed
--   Session    wl2k.c: the session's state, tgetline, wl2kgetline; Session.Outbound has dodelete and
--              b2outboundproposal, Session.Inbound has inbound_parser. What these call, the decoder,
--              wl2mime, sendmail and the clock, is the parameter `Services`; Tests.Codec puts the
--              decoder of Lzhuf in.
--              Session.Agreement, Exchange, Round and Again are about two stations.
--   Handshake  wl2k.c: send_my_sid (`my_sid`), parse_inboundsid, compute_secure_login_response and
--              send_secure_login_response; MD5 is a parameter.
--   Outbox     wl2k.c: p2p_qualify and prepare_outbound_proposals; the directory is a list of entries,
--              and the encoder a parameter, which Outbox.Sendable takes to be the one of Lzhuf. A file
--              of 2 ^ 32 bytes or more has no result, and neither has a read of freed memory that has
--              changed (`unsettled`).
--   Station    wl2k.c: handshake, handshake_no_secure_login, p2p_startmsg, wl2k_wait_for_response,
--              wl2k_exchange and wl2kd_exchange, which call all of the above. `Host` is what the system
--              gives, and the answers of select and getpeername are a list of `Poll`.
--   Conf       conf.c: conf_read and conf_get on the bytes of the file
--   Mime       mime2wl.c (Mime.Address, Mime.ToWinlink) and wl2mime.c (Mime.ToMime): what GMime tells
--              of a message is data (`Message`, `Object`), and the message that GMime builds is the
--              list of the calls (`Call`); the system's clock and strftime are a parameter, and so are
--              strptime and wl_timegm. Mime.Parts, Headers, RoundTrip and NoBody are about both.
--   Lzhuf      lzhuf_1.c: Tables, Crc, Bits (GetBit, GetByte, Putcode), Tree (StartHuff, reconst,
--              update), Window (InitTree, InsertNode, DeleteNode), Decode and Encode, with
--              Lzhuf.Encode.Output on what the encoder returns; the statics that an earlier call has
--              left are parameters
--   Filter     mail.wl2k.c: from a mail to the file in the outbox
--   Setup      loadconfig of wl2ktelnet.c (Setup.Telnet, with the dialogue of main), of wl2kax25.c
--              (Setup.Radio) and of wl2kserial.c (Setup.Serial); conf_get on the file is a parameter,
--              and getopt_long a list of options
--   Pump       wl2kax25.c: the loop of the parent process, between the radio and the child; the answers
--              of poll, read and write are lists
--   Welcome    wl2kax25d.c: what main prints, with print_esc_char and print_esc_string; with it
--              Station.Caller and Station.Meeting are about two stations that greet each other
--   Tests      a database in memory, and runs on small inputs
--
-- Numbers. Bytes are numbers below 256. Where a C type wraps round, `% 2 ^ w` is written out: 32 bits
-- for unsigned int, 64 for unsigned long, 16 for the CRC. The read position of a buffer has 32 bits,
-- which is why a buffer that is read has less than 2 ^ 32 bytes. The sums of the checksums are taken
-- without a bound; they are only used modulo 256.
--
-- Fuel. A loop that C ends by its data runs on a number of rounds: the bytes still to come in
-- getcompressed, inbound_parser, the greetings, the telnet dialogue and the lines that are passed
-- over, since each round takes a byte;
-- the contents of the buffer in addbuf and getline; the bytes left in putcompressed; the size of the
-- table for a path in the Huffman tree, and of the window for one in its search trees; the text's
-- size in Encode and Decode, since every round handles a byte. A model that has run out of rounds
-- says so (`stuck`, or `none` where there is no other `none`), which is no result of the program.
-- generate_mid tries random ids until one is free, and its rounds are a parameter.
--
-- Not modelled: wl2kd.c, an earlier version of wl2k.c that is not built; what else the main programs
-- do (sockets, terminals, processes); the loadconfig of wl2kax25d.c; timeouts and logs; MD5 and the
-- replacements of C library functions, which are copies of other projects; and the web application.
-- A write to the connection is taken to succeed, and the alarm is taken not to strike.
pub mod Common
pub mod Buffer
pub mod Conf
pub mod Strutil
pub mod Number
pub mod Proposal
pub mod Outbox
pub mod Station
pub mod Pump
pub mod Setup
pub mod Welcome
pub mod Filter
pub mod Mid
pub mod Mime
pub mod Stream
pub mod Transfer
pub mod Session
pub mod Handshake
pub mod Lzhuf
pub mod Tests
