-- ===== src/Lib.antt =====
-- A model of vpn_mgr, a program that sets up, saves and starts VPN connections of several kinds by
-- running other programs (ip, route, wg, openvpn, ssh, pppd).
--
-- How the program is put together. main.c parses the command line (command_line.c) into a context
-- (TVpn, vpn_ctx.c), reads what is saved under the connection's name (vpn_config.c), and hands the
-- context to the code of one protocol: Wireguard (wireguard.c), OpenVPN (openvpn.c), SSH tunnels
-- (ssh.c), PPP over SSH (pppssh.c) or over TLS (ssl_client.c), or to the server for PPP over TLS
-- (ssl_server.c). These run commands, as root where needed (run_command.c), set up devices (net.c,
-- tuntap.c), routes (route.c), name servers (resolv.c) and the up and down scripts (updown.c), and
-- pass bytes between pppd and the other end (ppp.c). SignalHandler (common.c) sets FLAG_EXIT, which
-- every loop tests.
--
-- How it is modelled. A function with effects is an action of the monad `M` (Process.antt), which
-- passes on the program's global variables (GlobalFlags, FoundCommands, Passwords,
-- RunCommandPasswordAttemptCount, Active) and the trace of what was done to the outside world,
-- newest event first. An action returns, ends the process by `exit`, or faults on a pointer that is
-- NULL or, of `Active`, on a stream that was closed: `STREAMClose` frees it and leaves the pointer.
-- libUseful and the system are the parameter `Env`: pure functions of libUseful (GetToken,
-- ParseURL, ParseDuration) are functions of it, and each answer of the system may depend on the
-- whole trace so far. A NULL text is the empty text, since the program tests texts by StrValid. A
-- stream comes with what will be read from it; each read says whether SIGINT came while the process
-- waited for it, and such a read runs the handler first. The loops of the program run until their
-- stream ends or FLAG_EXIT is set, so they are recursive functions over the list of reads or events
-- and need no fuel.
--
-- The files, with the source each one is about:
--   Base         shared names; Base/Tests, Base/Chars, Base/Case, Base/Text: tests, C's character
--                functions and comparisons, texts
--   Process      the state, the monad and the environment; Process/Respects and Process/Keeps: relations
--                that every action of a kind keeps, with the rules to prove it; Process/Bind;
--                Process/Completes has rules for actions that return and start nothing, Process/Ends
--                and Process/Orderly those for how a call ends
--   Vpn          vpn_ctx.c, vpn_ctx.h: TVpn and VpnCtxCreate; Vpn/Context has VpnCtxDestroy, over the
--                state of a context's pointers, and VpnCtxLoadConfig
--   Common       common.c, and SSHVpnTerminate of ssh.c; Common/Interrupt is about signals
--   Help         help.c
--   CommandLine  command_line.c; Kinds has the chain of options, Documented is about the options that
--                the help text lists, Laws about `server`, and Faults and Ends about how the reading of
--                a command line ends
--   VpnConfig    vpn_config.c; Write, Read and Files have its functions; Paths, RoundTrip, Fields,
--                Restore and Written have the lemmas on a file that is written and read, Quiet and Saved
--                those on what AddConfig leaves, Private on the modes of the files it copies
--   RunCommand   run_command.c; Format (which command line), Output (the dialogue with su and sudo),
--                Launch (opening and running); Frame below the last two says what stays as it is,
--                Launch/Root what root runs, Output/Verdict what decides the read loop and
--                Output/Password when a password is asked for; Runs has rules for the commands that
--                an action runs, as a list, Once those for actions that set one device up, and Found is
--                about FindCommands
--   Route        route.c; Route/Hex has RouteParseHexAddress, Route/Default is about the default route
--   Resolv       resolv.c
--   Net          net.c; Net/Devices has the searches in the list of devices; Net/First is a search by
--                number, Net/Laws and Net/Names are its two uses, for addresses and names
--   UpDown       updown.c; UpDown/Commands has the plans of VpnUp and VpnDown as lists of commands,
--                and UpDown/Plan is about how they are carried out; UpDown/Resolver is about the name
--                servers' file from a link's start to its end, over the files of UpDown/Resolver/Moving
--   TunTap       tuntap.c; TunTap/Ready is about a device that was set up
--   Wireguard    wireguard.c; Wireguard/Plan is about the commands of a link
--   OpenVpn      openvpn.c; TunTap/Gone, Wireguard/TakenDown and OpenVpn/TakenDown are about the end of
--                a link and its device; OpenVpn/Plan is about what openvpn's notices lead to, with the
--                rules of OpenVpn/Followed, and OpenVpn/Dated about lines that begin with a date
--   Ppp          ppp.c; Ppp/Laws is about the bytes that are passed on, Ppp/Configured about when the
--                link is set up
--   SslServer    ssl_server.c; Auth has SSLAuth, with the methods of ServerAuth in Auth/Policy, and
--                Connections the table and the loop; below it, Pairs and Laws are about one operation,
--                Accept about how a client is let in, and Run and Admitted about whole runs of the loop
--   Ssh          ssh.c; Remote has the remote shell, Session the tunnel; Remote/Sync is about SSHVpnSync,
--                Remote/Taken about the bytes that it takes off the stream, Remote/Frame says what the conversation leaves alone in this process, and Session/Plan
--                is about the commands that a session runs here
--   PppSsh       pppssh.c
--   SslClient    ssl_client.c
--   Loops        the loops that wait for input (run_command.c, wireguard.c, ssh.c, openvpn.c) and SIGINT
--   Main         main.c; Main/Delete is about the command `delete`, Main/Upkeep about the actions that
--                set up no link, Main/Protocols about the protocols that are said to be supported, and
--                Main/Saved about a connection that one run saves and another makes
--   Orderly      how the program's functions end, one lemma for each, by component; Orderly/Whole is
--                about all actions of main, and Orderly/Program about the whole program
--   Sample       a concrete libUseful for the tests; Examples: runs at concrete inputs
--
-- Bounds. `DevsIPExists` is tried for the numbers 2 to 254, so that search has 253 rounds.
-- `find_next` has the 999 rounds of NetDevFindNext. The number of lines that SSHGetRemoteDev reads
-- is 10. STREAMReadBytes, behind SSHVpnSync, gives what the system has ready, up to 4096 bytes.
-- `show` and `atoi` follow C's `%d` and `strtol` on 32-bit values; ten rounds of `show_fuel`
-- are enough for the digits of any of them.
--
-- Not modelled: the code of libUseful, a copy of another project's library, and the build files.
-- GetVar and SetVar on a list of named values are written out (RunCommand/Format), with the case of
-- the names ignored as there. A device's name of less than three characters, from `-dev` for SSH, is
-- read beyond its end (ssh.c:428); the model takes the empty text for it.
-- Of main.c, the modes of the terminal, the process group and the signals that are ignored; of the
-- output, what is buffered and the debug line with which SSHVpnSync says that it is done.
pub mod Base
pub mod Process
pub mod Vpn
pub mod Common
pub mod RunCommand
pub mod Route
pub mod Resolv
pub mod Net
pub mod UpDown
pub mod TunTap
pub mod Wireguard
pub mod OpenVpn
pub mod Ppp
pub mod SslServer
pub mod Ssh
pub mod PppSsh
pub mod SslClient
pub mod Help
pub mod Main
pub mod CommandLine
pub mod VpnConfig
pub mod Loops
pub mod Orderly
pub mod Sample
pub mod Examples
