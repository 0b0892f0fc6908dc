-- ===== src/Lib.antt =====
-- FM350 monitor (Go module fm350-monitor): a daemon that watches a Fibocom FM350 modem over AT commands,
-- brings its data session up over MBIM or RNDIS, sends and receives text messages, and serves a web page
-- with the state of the modem. This library models the services and the parts of the repositories that
-- decide something by themselves, and proves what they promise each other and the operator.
--
-- The parts of the program, and the files that model them:
-- - internal/pkg/domain/{modem,wan,inventory}.go: the records that are passed around, in Domain, and
--   ParseDataMode and ParseDataMethod, in Domain/Modes.
-- - internal/usecase/ports.go: the interfaces of the hardware, in Ports. Each port is a function of the
--   calls that were made before, so a device may answer the same call differently each time. Each call
--   that reaches a device is recorded in the state of the service, the newest first. Interfaces that a
--   repository may or may not implement (hostStaticConfigurer, pdpDeactivator and the like) are options.
-- - internal/usecase/modem.go and rndis_config.go: ModemService. Service has its state, Service/Inventory
--   buildInventoryLocked and SelectModem, Service/Data the MBIM calls and connectRNDISConfigured,
--   Service/Session DataConnect and DataDisconnect, and Service/Poll pollStatus with handleATFailure,
--   rediscoverATPort and maybeHardResetLocked; Service/Poll/Recovery is about the resets.
-- - internal/usecase/wan_service.go: WANService, the facade that handlers use. Wan has its overrides and
--   decorateStatus, Wan/Endpoint resolveDataEndpoint, Wan/Select SelectModem, Wan/Connect connectMBIM and
--   DataConnect, Wan/Disconnect MBIMDisconnect and DataDisconnect. It calls ModemService for every
--   session, so the state of Wan holds that of Service.
-- - internal/usecase/sms.go: SendSMS with its guard, in Sms/Guard. What each mutex covers is a definition
--   of its own (admit, submit, remember), so calls can overlap.
-- - internal/repository/at_sms.go: encoding, segments and the submit PDU, in Sms/Segments and Sms/Pdu; a
--   receiver that reads the PDU back, written from the format of 3GPP TS 23.040, is in Sms/Pdu/Decode.
-- - internal/repository/at_urc.go: the queue of unsolicited result codes, in Sms/Urc.
-- - internal/pkg/domain/{enum_*,device,usb_mode}.go: the constants and parsers of the enumerations, in
--   Domain/Enums, with the RAT modes and their commands in Domain/Enums/Rat.
-- - internal/repository/at_parser.go and at_ca_enrich.go: the parsers of AT responses, in At. At/Fields
--   decodes raw values, At/Band has bands and formats, At/Signal the signal, At/Cells the cells, At/Carriers
--   the component carriers, At/Tech DetectRadioTech, and At/Info the rest.
-- - internal/repository/at_client.go, at_cmd.go and at_pdp_control.go: the client of the serial port, in
--   At/Serial (connection and one command) and At/Client (operations). What is done to the port is recorded, the
--   newest first, and the serial library is a function of it; the reads of one command are a list.
-- - internal/repository/at_tiered.go and at_tiered_control.go: the client that the services use, in At/Tiered.
--   Its operations are taken one at a time, as withAT of ModemService calls them.
-- - internal/repository/history_ring.go: the ring of signal samples, in Ring.
-- - internal/handler/sse_hub.go: the hub that sends the status to browsers, in Sse. The goroutine of Run
--   and the subscribers are actions in any order; every send to a channel is an action of its own.
-- - internal/pkg/domain/hotspot.go and internal/usecase/hotspot.go: the hotspot, in Hotspot/Config (what a valid
--   configuration is) and Hotspot (HotspotSetConfig, HotspotStart, HotspotStop, HotspotStatus). The repository
--   that drives hostapd is a port, and a request to start is given as a patch of the configuration.
-- Base passes the names of the library on, with Go's strings, numbers and lists.
--
-- Bounds. A Go string is the list of its code points, and is assumed to be valid UTF-8. An int is an
-- integer without bound, except that strconv.Atoi is bounded by 64 bits, and an octet of the PDU wraps at 256. A
-- time is a number of nanoseconds; where the program compares a difference of times with a bound, the
-- difference stops at 0. Nothing runs on fuel: the loops are structural, the attempts of connectMBIM
-- are three as in the program, and waitRNDISIPConfig asks as often as pdp_rounds of the environment says,
-- which stands for its six seconds.
--
-- Parameters are the texts of errors and their classes (error_text, device_error, is_permission), the
-- address that net.ParseCIDR finds, the rate of a counter, which the program computes with floating point numbers,
-- json.Marshal and reflect.DeepEqual. At/Band takes the text of a bandwidth with a
-- decimal, and At/Info what strconv.ParseFloat reads, in thousandths.
--
-- Not modelled are logs, tickers and contexts, the discovery of the AT port, the operations of the AT client on text
-- messages (listing, reading, deleting and the dialogue of AT+CMGS), AT+CGCONTRDP with its parser, the inventory
-- cache, the repository of the hotspot, sysfs and netlink, HTTP handlers and templates, and the capacity of the
-- downlink.
pub mod Base
pub mod Domain
pub mod Ports
pub mod Service
pub mod Ring
pub mod Sms
pub mod Wan
pub mod Sse
pub mod At
pub mod Hotspot
