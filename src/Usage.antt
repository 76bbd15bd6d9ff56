-- ===== src/Usage.antt =====
-- The help text and the version of app/usage.c, line by line.
pub mod Words
use sippak.Prelude.{List, [], ◌∷◌, ◌++◌}
use sippak.CString.{Bytes, codes}
use sippak.Config.{max_ns_count}
use sippak.SipHelper.Requests.{print_decimal}

-- What the build writes into the program.
pub record Project : Type 0 where
  pub name : Bytes
  pub version : Bytes
  pub arch : Bytes
  pub license : Bytes
  pub pjsip_version : Bytes
  pub built_time : Bytes
  pub author : Bytes
  pub url : Bytes

abbrev pub codec_list : Bytes
codec_list = codes "speex,ilbc,gsm,g711,g722,ipp,l16,amr,silk,opus,bcg729,all"

-- The commands.
abbrev pub command_lines : List Bytes
command_lines =
    codes "  COMMAND:"
    ∷ codes "  Default commans is \"PING\"."
    ∷ codes "    PING      Send OPTIONS packet to destination."
    ∷ codes
        "    PUBLISH   Send PUBLISH events and status. Default document is 'pidf' and default event is 'presence'."
    ∷ codes "    SUBSCRIBE Send SUBSCRIBE request. Default event is 'presence'"
    ∷ codes "    NOTIFY    Send NOTIFY request. Default event is 'keep-alive'"
    ∷ codes "    REGISTER  AOR contacts list, register or unregister."
    ∷ codes
        "    REFER     Send REFER method outside dialog. Implements click-to-dial scenario as in RFC5359 #2.18."
    ∷ codes "              This command requires parameter --to for Refer-To header."
    ∷ codes "    MESSAGE   Send MESSAGE method with text. SIP instant messaging."
    ∷ codes
        "    INVITE    Initiates and handles INVITE session. After session is confirmed (200) sends BYE."
    ∷ []
    ∷ []

-- The options: the general ones,
abbrev pub general_lines : List Bytes
general_lines =
    codes "  OPTIONS:"
    ∷ codes "    -h, --help      Print this usage message and exit."
    ∷ codes "    -V, --version   Print version and exit."
    ∷ codes "    -v, --verbose   Verbosity increase. Short option can be repeated multiple times."
    ∷ codes "                    Long option can have value. Example: --verbose=6"
    ∷ codes "    -q, --quiet     Silent or quiet mode. Mute sippak."
    ∷ (codes "    --ns=LIST       Define DNS nameservers to use. Comma separated list up to "
        ++ (print_decimal max_ns_count ++ codes " servers."))
    ∷ codes
        "                    Can be defined with ports. If ports are not defined will use default port 53."
    ∷ codes "                    For example: --ns=8.8.8.8 or --ns=4.4.4.4:553,3.3.3.3"
    ∷ codes "    --color         Enable colorized output. Disabled by default."
    ∷ codes "    --trail-dot     Output trailing dot '.' at the end of each SIP message line."
    ∷ codes "    --log-time      Print time and microseconds in logs."
    ∷ codes "    --log-level     Print log level: ERROR, INFO etc."
    ∷ codes "    --log-snd       Print log sender file or module name."
    ∷ []

-- those of the transport and of headers,
abbrev pub value_lines : List Bytes
value_lines =
    codes "    -P, --local-port=PORT"
    ∷ codes "                    Bind local port. Default is random port."
    ∷ codes "    -l, --local-host=HOST|IP"
    ∷ codes
        "                    Bind local hostname or IP. Default is first available local inface."
    ∷ codes "    -u, --username=USER"
    ∷ codes "                    Username part in Authentication as well as in Contact and"
    ∷ codes "                    From header URI. Default is from destination URI."
    ∷ codes "    -p, --password=PASS"
    ∷ codes "                    Password for authentication."
    ∷ codes "    -c, --contact=CONTACT"
    ∷ codes
        "                    Custom contact header value. Must be valid SIP URI. For example: sip:alice@10.10.10.1:123"
    ∷ codes "                    If not set, contact header is generated automatically."
    ∷ codes "    -F, --from-name=DISPLAY_NAME"
    ∷ codes "                    Display name in From header. Default is empty."
    ∷ codes "    -t, --proto=PROTO"
    ∷ codes
        "                    Transport protocol to use. Possible values 'tcp' or 'udp'. Default is 'udp'."
    ∷ codes "    -X, --expires=NUMBER"
    ∷ codes "                    Expires header value. Must be number more then 0."
    ∷ codes "    --pres-status=STATUS"
    ∷ codes
        "                    Presence status for PUBLISH command. STATUS value can be 'open', 'closed' etc."
    ∷ codes
        "                    If this parameter is not defined or invalid, will use 'open' status."
    ∷ codes "    --pres-note=MESSAGE"
    ∷ codes "                    Presence note message string for PUBLISH command."
    ∷ codes "    -C, --content-type=TYPE"
    ∷ codes
        "                    Publish or notify content type. TYPE values can be pidf, xpidf or mwi."
    ∷ codes "                    Note: XPIDF implementation is not complete in pjproject."
    ∷ []

-- those of events and commands,
abbrev pub event_lines : List Bytes
event_lines =
    codes "    -E, --event=EVENT"
    ∷ codes "                    Presence event header for subscribe, publish or notify methods."
    ∷ codes
        "                    EVENT values can be \"presence\", \"message-summary\", \"keep-alive\" etc."
    ∷ codes
        "                    For convinence, there is an alias \"mwi\" can be used for \"message-summary\" event."
    ∷ codes "                    For PUBLISH and SUBSCRIBE method default value is 'presence'."
    ∷ codes "                    For NOTIFY method default value is 'keep-alive'."
    ∷ codes "    -M, --mwi=N,N,N,N"
    ∷ codes "                    Voice messages list. Comma separated list of numbers."
    ∷ codes "                    List of messages new,old,urgent_new,urgent_old."
    ∷ codes
        "                    List from 1 to 4 members. Not set members will be initiated with 0."
    ∷ codes "    --mwi-acc=ACCOUNT"
    ∷ codes
        "                    Voicemail account for message-summary body. If not set then destination URI used."
    ∷ codes "    --clist"
    ∷ codes
        "                    Flag for REGISTER method to get list of contacts registered for AOR."
    ∷ codes "    --cancel-all"
    ∷ codes "                    Flag for REGISTER method to cancel all registrations for AOR."
    ∷ codes "    --cancel"
    ∷ codes "                    Cancel registarations for REGISTER or session for INVITE."
    ∷ codes
        "                    When used with REGISTER method then cancels contact registration for AOR."
    ∷ codes
        "                    Contact field can be set with --contact option or will be generated."
    ∷ codes "                    When used with INVITE will cancel session in early state."
    ∷ codes "    --to=SIP_URI"
    ∷ codes "                    Parameter for REFER command to setup Refer-To header value."
    ∷ codes "    --body=TEXT"
    ∷ codes "                    Parameter for MESSAGE command to setup message body text."
    ∷ []

-- those of media, and the headers and proxies.
abbrev pub media_lines : List Bytes
media_lines =
    codes "    --codec=LIST"
    ∷ codes "                    Set codec or codecs to use during INVITE session. Value can be"
    ∷ codes "                    a single codec name or comma-separated list of codecs. By default"
    ∷ codes "                    sippak will use codec g711. Codec names are case-insensitive."
    ∷ codes "                    Following codec names can be used:"
    ∷ (codes "                    " ++ codec_list)
    ∷ codes
        "                    When set to \"all\" will try to setup all available codecs for media."
    ∷ codes "    --rtp-port=PORT"
    ∷ codes "                    Port to use for media streams and negotiate with SDP."
    ∷ codes "    -A, --user-agent=STRING"
    ∷ codes "                    Set User-Agent SIP header value."
    ∷ codes "    -H, --header=HEADER"
    ∷ codes
        "                    Add custom header to request. Multiple custom headers (up to 12) can be added."
    ∷ codes
        "                    Parameter value must contain header name and value separated by colon."
    ∷ codes "                    Examples:"
    ∷ codes
        "                    --header=\"X-Foo: bar\", -H X-Foo:bar, -H \"X-Assert: sip:123@sip.com\""
    ∷ codes "    -R, --proxy=PROXY"
    ∷ codes "                    Add proxy to request. Multiple proxies (up to 12) can be added."
    ∷ codes
        "                    The first proxy will be used as outbound proxy where the request will be sent."
    ∷ codes
        "                    All additional proxies will be added as Route headers to the request."
    ∷ codes "                    Supported methods are INVITE, REGISTER and PUBLISH."
    ∷ codes "                    Examples:"
    ∷ codes "                    --proxy=sip:sip.com:2585, -R sip:10.23.24.100:6060;lr"
    ∷ []
    ∷ []

abbrev pub help_lines : List Bytes
help_lines = command_lines ++ (general_lines ++ (value_lines ++ (event_lines ++ media_lines)))

-- `version`
abbrev pub version : Project → List Bytes
version p =
    (p.name ++ (codes " " ++ (p.version ++ (codes " (" ++ (p.arch ++ (codes ") " ++ p.license))))))
    ∷ (codes "built with pjproject " ++ (p.pjsip_version ++ (codes ", at " ++ p.built_time)))
    ∷ (codes "(c) 2018 " ++ p.author)
    ∷ (codes "project site and bug report: " ++ p.url)
    ∷ []
    ∷ []

-- `usage`
abbrev pub usage : Project → List Bytes
usage p =
    version p
    ++ ((codes "Usage: " ++ (p.name ++ codes " [COMMAND] [OPTIONS] [DESTINATION]"))
        ∷ []
        ∷ help_lines)
