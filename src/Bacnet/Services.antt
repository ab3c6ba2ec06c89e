-- ===== src/Bacnet/Services.antt =====
-- protocols/bacnet.py: the frame functions, PDU types and services, and their names.
use pcap_decode.Base.{ℕ, List, [], ◌∷◌}
use pcap_decode.Models.{Text, text}

abbrev pub bvlc_type_bacnet_ip : ℕ
bvlc_type_bacnet_ip = 129

abbrev pub bvlc_functions : List (ℕ × Text)
bvlc_functions =
    (0, text "bvlc-result")
    ∷ (1, text "write-broadcast-distribution-table")
    ∷ (2, text "read-broadcast-distribution-table")
    ∷ (3, text "read-broadcast-distribution-table-ack")
    ∷ (4, text "forwarded-npdu")
    ∷ (5, text "register-foreign-device")
    ∷ (6, text "read-foreign-device-table")
    ∷ (7, text "read-foreign-device-table-ack")
    ∷ (8, text "delete-foreign-device-table-entry")
    ∷ (9, text "distribute-broadcast-to-network")
    ∷ (10, text "original-unicast-npdu")
    ∷ (11, text "original-broadcast-npdu")
    ∷ (12, text "secure-bvll")
    ∷ []

abbrev pub npdu_bearing_functions : List (ℕ × ℕ)
npdu_bearing_functions = (4, 6) ∷ (9, 0) ∷ (10, 0) ∷ (11, 0) ∷ []

abbrev pub apdu_confirmed_request : ℕ
apdu_confirmed_request = 0

abbrev pub apdu_unconfirmed_request : ℕ
apdu_unconfirmed_request = 1

abbrev pub apdu_complex_ack : ℕ
apdu_complex_ack = 3

abbrev pub apdu_error : ℕ
apdu_error = 5

abbrev pub apdu_reject : ℕ
apdu_reject = 6

abbrev pub apdu_abort : ℕ
apdu_abort = 7

abbrev pub apdu_types : List (ℕ × Text)
apdu_types =
    (0, text "confirmed-request")
    ∷ (1, text "unconfirmed-request")
    ∷ (2, text "simple-ack")
    ∷ (3, text "complex-ack")
    ∷ (4, text "segment-ack")
    ∷ (5, text "error")
    ∷ (6, text "reject")
    ∷ (7, text "abort")
    ∷ []

abbrev pub service_atomic_read_file : ℕ
service_atomic_read_file = 6

abbrev pub service_atomic_write_file : ℕ
service_atomic_write_file = 7

abbrev pub confirmed_services : List (ℕ × Text)
confirmed_services =
    (0, text "acknowledgeAlarm")
    ∷ (1, text "confirmedCOVNotification")
    ∷ (2, text "confirmedEventNotification")
    ∷ (3, text "getAlarmSummary")
    ∷ (4, text "getEnrollmentSummary")
    ∷ (5, text "subscribeCOV")
    ∷ (6, text "atomicReadFile")
    ∷ (7, text "atomicWriteFile")
    ∷ (8, text "addListElement")
    ∷ (9, text "removeListElement")
    ∷ (10, text "createObject")
    ∷ (11, text "deleteObject")
    ∷ (12, text "readProperty")
    ∷ (13, text "readPropertyConditional")
    ∷ (14, text "readPropertyMultiple")
    ∷ (15, text "writeProperty")
    ∷ (16, text "writePropertyMultiple")
    ∷ (17, text "deviceCommunicationControl")
    ∷ (18, text "confirmedPrivateTransfer")
    ∷ (19, text "confirmedTextMessage")
    ∷ (20, text "reinitializeDevice")
    ∷ (21, text "vtOpen")
    ∷ (22, text "vtClose")
    ∷ (23, text "vtData")
    ∷ (24, text "authenticate")
    ∷ (25, text "requestKey")
    ∷ (26, text "readRange")
    ∷ (27, text "lifeSafetyOperation")
    ∷ (28, text "subscribeCOVProperty")
    ∷ (29, text "getEventInformation")
    ∷ []

abbrev pub unconfirmed_services : List (ℕ × Text)
unconfirmed_services =
    (0, text "i-Am")
    ∷ (1, text "i-Have")
    ∷ (2, text "unconfirmedCOVNotification")
    ∷ (3, text "unconfirmedEventNotification")
    ∷ (4, text "unconfirmedPrivateTransfer")
    ∷ (5, text "unconfirmedTextMessage")
    ∷ (6, text "timeSynchronization")
    ∷ (7, text "who-Has")
    ∷ (8, text "who-Is")
    ∷ (9, text "utcTimeSynchronization")
    ∷ (10, text "writeGroup")
    ∷ []
