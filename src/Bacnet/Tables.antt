-- ===== src/Bacnet/Tables.antt =====
-- protocols/bacnet.py: the tables of names and notes, tag numbers and limits.
use pcap_decode.Base.{ℕ, List, [], ◌∷◌}
use pcap_decode.Models.{Text, text}

abbrev pub network_message_types : List (ℕ × Text)
network_message_types =
    (0, text "Who-Is-Router-To-Network")
    ∷ (1, text "I-Am-Router-To-Network")
    ∷ (2, text "I-Could-Be-Router-To-Network")
    ∷ (3, text "Reject-Message-To-Network")
    ∷ (4, text "Router-Busy-To-Network")
    ∷ (5, text "Router-Available-To-Network")
    ∷ (6, text "Initialize-Routing-Table")
    ∷ (7, text "Initialize-Routing-Table-Ack")
    ∷ (8, text "Establish-Connection-To-Network")
    ∷ (9, text "Disconnect-Connection-To-Network")
    ∷ (10, text "Challenge-Request")
    ∷ (11, text "Security-Payload")
    ∷ (12, text "Security-Response")
    ∷ (13, text "Request-Key-Update")
    ∷ (14, text "Update-Key-Set")
    ∷ (15, text "Update-Distribution-Key")
    ∷ (16, text "Request-Master-Key")
    ∷ (17, text "Set-Master-Key")
    ∷ (18, text "What-Is-Network-Number")
    ∷ (19, text "Network-Number-Is")
    ∷ []

abbrev pub error_classes : List (ℕ × Text)
error_classes =
    (0, text "device")
    ∷ (1, text "object")
    ∷ (2, text "property")
    ∷ (3, text "resources")
    ∷ (4, text "security")
    ∷ (5, text "services")
    ∷ (6, text "vt")
    ∷ (7, text "communication")
    ∷ []

abbrev pub reject_reasons : List (ℕ × Text)
reject_reasons =
    (0, text "other")
    ∷ (1, text "buffer-overflow")
    ∷ (2, text "inconsistent-parameters")
    ∷ (3, text "invalid-parameter-data-type")
    ∷ (4, text "invalid-tag")
    ∷ (5, text "missing-required-parameter")
    ∷ (6, text "parameter-out-of-range")
    ∷ (7, text "too-many-arguments")
    ∷ (8, text "undefined-enumeration")
    ∷ (9, text "unrecognized-service")
    ∷ []

abbrev pub abort_reasons : List (ℕ × Text)
abort_reasons =
    (0, text "other")
    ∷ (1, text "buffer-overflow")
    ∷ (2, text "invalid-apdu-in-this-state")
    ∷ (3, text "preempted-by-higher-priority-task")
    ∷ (4, text "segmentation-not-supported")
    ∷ (5, text "security-error")
    ∷ (6, text "insufficient-security")
    ∷ (7, text "window-size-out-of-range")
    ∷ (8, text "application-exceeded-reply-time")
    ∷ (9, text "out-of-resources")
    ∷ (10, text "tsm-timeout")
    ∷ (11, text "apdu-too-long")
    ∷ []

abbrev pub probing_reject_reasons : List ℕ
probing_reject_reasons = 4 ∷ 8 ∷ 9 ∷ []

abbrev pub object_types : List (ℕ × Text)
object_types =
    (0, text "analog-input")
    ∷ (1, text "analog-output")
    ∷ (2, text "analog-value")
    ∷ (3, text "binary-input")
    ∷ (4, text "binary-output")
    ∷ (5, text "binary-value")
    ∷ (6, text "calendar")
    ∷ (7, text "command")
    ∷ (8, text "device")
    ∷ (9, text "event-enrollment")
    ∷ (10, text "file")
    ∷ (11, text "group")
    ∷ (12, text "loop")
    ∷ (13, text "multi-state-input")
    ∷ (14, text "multi-state-output")
    ∷ (15, text "notification-class")
    ∷ (16, text "program")
    ∷ (17, text "schedule")
    ∷ (18, text "averaging")
    ∷ (19, text "multi-state-value")
    ∷ (20, text "trend-log")
    ∷ (21, text "life-safety-point")
    ∷ (22, text "life-safety-zone")
    ∷ (23, text "accumulator")
    ∷ (24, text "pulse-converter")
    ∷ (25, text "event-log")
    ∷ (26, text "global-group")
    ∷ (27, text "trend-log-multiple")
    ∷ (28, text "load-control")
    ∷ (29, text "structured-view")
    ∷ (30, text "access-door")
    ∷ (56, text "network-port")
    ∷ []

abbrev pub commandable_object_types : List ℕ
commandable_object_types = 1 ∷ 4 ∷ 7 ∷ 14 ∷ 16 ∷ 17 ∷ 28 ∷ []

abbrev pub reinitialize_states : List (ℕ × Text)
reinitialize_states =
    (0, text "coldstart")
    ∷ (1, text "warmstart")
    ∷ (2, text "startbackup")
    ∷ (3, text "endbackup")
    ∷ (4, text "startrestore")
    ∷ (5, text "endrestore")
    ∷ (6, text "abortrestore")
    ∷ (7, text "activatechanges")
    ∷ []

abbrev pub device_communication_states : List (ℕ × Text)
device_communication_states =
    (0, text "enable") ∷ (1, text "disable") ∷ (2, text "disable-initiation") ∷ []

abbrev pub sensitive_confirmed_services : List (ℕ × Text)
sensitive_confirmed_services =
    (6, text "File read from device - possible configuration or data exfiltration")
    ∷ (7, text "File write to device - firmware or configuration modification")
    ∷ (10, text "Object created on device")
    ∷ (11, text "Object deleted from device")
    ∷ (15, text "Property write - setpoint or actuator command")
    ∷ (16, text "Multiple property writes - setpoint or actuator commands")
    ∷ (17, text "Device communication control - can silence a device")
    ∷ (18, text "Vendor-proprietary transfer - opaque tunnelled payload")
    ∷ (20, text "Device reinitialization - coldstart/warmstart is disruptive")
    ∷ (24, text "Authentication attempt")
    ∷ (25, text "Encryption key request")
    ∷ []

abbrev pub sensitive_unconfirmed_services : List (ℕ × Text)
sensitive_unconfirmed_services =
    (4, text "Vendor-proprietary transfer - opaque tunnelled payload")
    ∷ (6, text "Clock set on peers - affects scheduling and log correlation")
    ∷ (9, text "UTC clock set on peers - affects scheduling and log correlation")
    ∷ (10, text "Group write - bulk actuator command")
    ∷ []

abbrev pub sensitive_network_messages : List (ℕ × Text)
sensitive_network_messages =
    (3, text "Router rejected a message - possible routing disruption")
    ∷ (6, text "Routing table initialization - network topology modification")
    ∷ (7, text "Routing table initialization acknowledged")
    ∷ (8, text "Connection establishment to remote network")
    ∷ (9, text "Connection teardown to remote network")
    ∷ (13, text "Security key update requested")
    ∷ (14, text "Security key set update")
    ∷ (15, text "Distribution key update")
    ∷ (16, text "Master key requested")
    ∷ (17, text "Master key set")
    ∷ []

abbrev pub tag_boolean : ℕ
tag_boolean = 1

abbrev pub tag_unsigned : ℕ
tag_unsigned = 2

abbrev pub tag_signed : ℕ
tag_signed = 3

abbrev pub tag_octet_string : ℕ
tag_octet_string = 6

abbrev pub tag_enumerated : ℕ
tag_enumerated = 9

abbrev pub tag_object_identifier : ℕ
tag_object_identifier = 12

abbrev pub recon_whois_threshold : ℕ
recon_whois_threshold = 100

abbrev pub max_observations : ℕ
max_observations = 5000

abbrev pub max_devices : ℕ
max_devices = 20000

abbrev pub max_pending_file_reads : ℕ
max_pending_file_reads = 4096

abbrev pub max_file_assembly_bytes : ℕ
max_file_assembly_bytes = 16777216

abbrev pub max_tags_per_apdu : ℕ
max_tags_per_apdu = 128
