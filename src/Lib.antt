-- ===== src/Lib.antt =====
-- sippak, a command line tool that sends SIP requests with pjsip.
--
-- The program reads its options to one structure, `struct sippak_app`, builds one request from it,
-- and lets pjsip call back until some callback ends the loop of src/main.c. Modules of pjsip log
-- every message, and put the headers of the command line in every request.
--
-- Config models src/include/sippak.h.in and `sippak_init`. Getopts models src/app/getopts.c:
-- Values the values of single options, Headers the custom headers and the proxies, Lists the voice
-- mail counts, Table the option table, Options the `switch`, the words left over and
-- `post_parse_setup`; Headers/Laws, Values/Ports, Post, Codecs, Arrays, Sent and Safety prove
-- things of them, with Rounds for what every round of the loop keeps. Media models the codec list
-- and the table of supported codecs of src/app/media_helper.c, with Media/Choice as its
-- description on plain lists. Dns models src/app/dns.c (System: the list of the system). SipHelper
-- models src/app/sip_helper.c (Requests: URIs, Contact, credentials, routes) and
-- src/mod/sip_mangler.c (Mangler). Bodies models the body of src/mod/message.c and the event,
-- content type and body of src/mod/notify.c. Session models the callbacks of src/mod and the loop
-- of src/main.c: Chat those of ping.c, which message.c, refer.c and notify.c repeat but for what
-- they log (Chat/Logged has the four with their logs), Publish, Subscribe and Invite those of the
-- files with these names (Watch: the `short unsigned` counter of the first two, which wraps). A
-- function keeps its name, with `sippak_` left out; where two files have a function of one name,
-- the command stands in front.
--
-- Calls has the monad in which the rest is written: a run is the list of the calls of pjsip that
-- it made, and each call has the status that pjsip, a parameter, gives it by the calls so far;
-- `SIPPAK_ASSERT_SUCC` returns the status that is no success. Calls/Attempt says what it is to do
-- a list of such steps, Calls/Ends the same for a run with an end of its own behind them: another
-- status, or a loop that still waits. Commands models `sippak_transport_init` of
-- src/app/sip_helper.c and the commands of src/mod/ping.c, message.c, refer.c and notify.c,
-- Commands/Clients those of register.c and publish.c, Commands/Dialogs those of subscribe.c and
-- invite.c, Media/Endpoint `set_media_codecs` and `sippak_set_media_sdp` of
-- src/app/media_helper.c, and Main `main` and `sippak_set_resolver_ns` of src/app/dns.c; the
-- children called Plan or Plans list their steps. Main/Prepared says what the request of each
-- command takes, Main/Loop when the loop of the run ends by what pjsip reports, Main/Codecs
-- follows the codecs from the command line to pjmedia, Main/Accepted the other values to the
-- requests; Main/Safety is about all runs, Main/Success about those that pjsip accepts, Main/Null
-- about those with no destination. Modules has the `pjsip_module` tables of src/mod, Modules/Order
-- the order in which pjsip calls their functions, by their priorities, and Modules/Runs the
-- modules that a run registers, from the list of its calls (Calls/Registrations). Usage has the
-- help text of src/app/usage.c, and Usage/Words what it names. Logger models src/mod/logger.c as
-- the pieces that it puts on the terminal, with its buffers: Colors, Lines, Headers and Transcript
-- describe them. Session/Register models the callback of src/mod/register.c with what it logs.
--
-- A function that changes the structure takes and gives it. Outcome says how a call ends: it
-- returns, it leaves the program by `exit`, or it has undefined behaviour (`fault`): it follows a
-- null pointer or leaves an array. A `pj_str_t` is an Option, `none` for a null pointer. An array
-- with its count is the count and the list of all its slots. Numbers are ℕ and ℤ, cut to their
-- width where the code stores them.
--
-- pjsip and the C library are parameters: Priorities and the place of a module in pjsip's list
-- with InsertLaw, Strings (isspace, strtrim, strtol, strtok, strstr, the comparisons without case)
-- with the documented behaviour as StringLaws, Uris (parse, print and change a URI), Messages
-- (find and add a header) with MessageLaws, `pj_getopt_long`, the resolver's list of name servers,
-- whether pjsip makes a presence document, and the events that pjsip reports while the loop runs.
-- Strings/Reference is an instance of Strings that meets its laws, and Tests has the others. An
-- event is one call back of pjsip. The loop goes over lists of events, one for each call of
-- `pjsip_endpt_handle_events`, which can make several, and looks at its flag between these lists
-- only. A `pj_str_t` with no text has a null pointer, and pjsip's parser reads at it.
--
-- The loops over `pj_strtok` run on fuel, the length of the text and one more: each round moves
-- the position behind a token, so this is enough. Strings/Loop has the lemma on them, a fold over
-- the tokens. Decimal digits are printed on fuel, the number and one more.
--
-- Not modelled: what the parts other than Logger, Session/Chat/Logged and Session/Register log on
-- the way; the two calls of `post_parse_setup` and the one of `main` that set up logging, and the
-- memory pools. `register_module msg_logger` stands for `sippak_mod_logger_register`, whose two
-- flags are in Logger. A run waits in the loop unless what pjsip reports ends it; the calls that a
-- callback makes meanwhile are in Session, and not in the list of the run.
pub mod Prelude
pub mod CString
pub mod Strings
pub mod Config
pub mod Media
pub mod Dns
pub mod Uris
pub mod Getopts
pub mod SipHelper
pub mod Bodies
pub mod Calls
pub mod Commands
pub mod Main
pub mod Modules
pub mod Usage
pub mod Logger
pub mod Session
pub mod Tests
