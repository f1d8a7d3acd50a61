-- ===== src/Demos/Errors.antt =====
-- frontend/components/ExecutionConsole.tsx: the programs that fail, and those that print odd texts, in base64.
use isolator_v_wasm_sandbox.Common.{Text, codes, [], ◌∷◌}
use isolator_v_wasm_sandbox.Demos.Wasm.{concat}

unfoldable pub exit1_wasm_b64 : Text
unfolding concat
exit1_wasm_b64 = concat (
    codes "AGFzbQEAAAABEANgBH9/f38Bf2ABfwBgAAACRgIWd2FzaV9zbmFwc2hvdF9wcmV2aWV3"
    ∷ codes "MQhmZF93cml0ZQAAFndhc2lfc25hcHNob3RfcHJldmlldzEJcHJvY19leGl0AAEDAgEC"
    ∷ codes "BQMBAAEHEwIGbWVtb3J5AgAGX3N0YXJ0AAIKIgEgAEEAQRA2AgBBBEGqATYCAEEBQQBB"
    ∷ codes "AUEIEAAaQQEQAQsLsQEBAEEQC6oBRXhpdCBDb2RlIERlbW8KPT09PT09PT09PT09PT0K"
    ∷ codes "VGhpcyBwcm9ncmFtIGNhbGxzIHByb2NfZXhpdCgxKSB0byB0ZXN0CnRoZSBub24temVy"
    ∷ codes "byBleGl0IHBhdGggb2YgdGhlIHBpcGVsaW5lLgoKVGhlIGV4aXQgY29kZSBiZWxvdyBz"
    ∷ codes "aG91bGQgYmUgcmVkLgoKRXhpdGluZyB3aXRoIGNvZGUgMS4uLgo="
    ∷ [])

unfoldable pub trap_wasm_b64 : Text
unfolding concat
trap_wasm_b64 = concat (
    codes "AGFzbQEAAAABEANgBH9/f38Bf2ABfwBgAAACRgIWd2FzaV9zbmFwc2hvdF9wcmV2aWV3"
    ∷ codes "MQhmZF93cml0ZQAAFndhc2lfc25hcHNob3RfcHJldmlldzEJcHJvY19leGl0AAEDAgEC"
    ∷ codes "BQMBAAEHEwIGbWVtb3J5AgAGX3N0YXJ0AAIKHwEdAEEAQRA2AgBBBEGvATYCAEEBQQBB"
    ∷ codes "AUEIEAAaAAsLtgEBAEEQC68BVHJhcCBEZW1vCj09PT09PT09PQpUaGlzIHByb2dyYW0g"
    ∷ codes "ZXhlY3V0ZXMgdGhlIFdBU00gJ3VucmVhY2hhYmxlJwppbnN0cnVjdGlvbiB0byB0cmln"
    ∷ codes "Z2VyIGEgaGFyZHdhcmUgdHJhcC4KClRoZSBzYW5kYm94IHNob3VsZCByZXBvcnQgYSBj"
    ∷ codes "cmFzaGVkIHN0YXRlLgoKRXhlY3V0aW5nIHVucmVhY2hhYmxlLi4uCg=="
    ∷ [])

unfoldable pub unicode_wasm_b64 : Text
unfolding concat
unicode_wasm_b64 = concat (
    codes "AGFzbQEAAAABEANgBH9/f38Bf2ABfwBgAAACRgIWd2FzaV9zbmFwc2hvdF9wcmV2aWV3"
    ∷ codes "MQhmZF93cml0ZQAAFndhc2lfc25hcHNob3RfcHJldmlldzEJcHJvY19leGl0AAEDAgEC"
    ∷ codes "BQMBAAEHEwIGbWVtb3J5AgAGX3N0YXJ0AAIKIgEgAEEAQRA2AgBBBEHeAzYCAEEBQQBB"
    ∷ codes "AUEIEAAaQQAQAQsL5QMBAEEQC94DVW5pY29kZSAmIEVtb2ppIFJlbmRlcmluZyBUZXN0"
    ∷ codes "Cj09PT09PT09PT09PT09PT09PT09PT09PT09PT09PQoKICBFbW9qaTogICAg8J+agCDi"
    ∷ codes "nIUg4p2MIOKaoO+4jyAg8J+SoSDwn5SlIPCfjq8g8J+nqgogIE1hdGg6ICAgICDOsSDO"
    ∷ codes "siDOsyDOtCDOtSDOtiDOtyDOuCDOuSDOuiDOuyDOvAogIEFycm93czogICDihpAg4oaS"
    ∷ codes "IOKGkSDihpMg4oaUIOKHkiDin7kg4pyTIOKclwogIEJveDogICAgICDilIzilIDilIDi"
    ∷ codes "lIDilIDilIDilIDilIDilIDilIDilJAKICAgICAgICAgICAg4pSCIHNhbmRib3gg4pSC"
    ∷ codes "CiAgICAgICAgICAgIOKUlOKUgOKUgOKUgOKUgOKUgOKUgOKUgOKUgOKUgOKUmAogIEph"
    ∷ codes "cGFuZXNlOiDjgZPjgpPjgavjgaHjga/kuJbnlYwKICBSdXNzaWFuOiAg0J/RgNC40LLQ"
    ∷ codes "tdGCLCDQvNC40YAhCiAgQXJhYmljOiAgINmF2LHYrdio2Kcg2KjYp9mE2LnYp9mE2YUK"
    ∷ codes "CkFsbCBjaGFyYWN0ZXJzIHJlbmRlcmVkIGNvcnJlY3RseT8g4pyTCg=="
    ∷ [])

unfoldable pub longlines_wasm_b64 : Text
unfolding concat
longlines_wasm_b64 = concat (
    codes "AGFzbQEAAAABEANgBH9/f38Bf2ABfwBgAAACRgIWd2FzaV9zbmFwc2hvdF9wcmV2aWV3"
    ∷ codes "MQhmZF93cml0ZQAAFndhc2lfc25hcHNob3RfcHJldmlldzEJcHJvY19leGl0AAEDAgEC"
    ∷ codes "BQMBAAEHEwIGbWVtb3J5AgAGX3N0YXJ0AAIKIgEgAEEAQRA2AgBBBEH7BzYCAEEBQQBB"
    ∷ codes "AUEIEAAaQQAQAQsLgggBAEEQC/sHTG9uZyBMaW5lcyBUZXN0Cj09PT09PT09PT09PT09"
    ∷ codes "PQpMaW5lcyBiZWxvdyBhcmUgfjkwIGNoYXJzLiBUZXN0cyB0ZXJtaW5hbCB3cmFwL3Nj"
    ∷ codes "cm9sbCBiZWhhdmlvdXIuCgogICAgICAgICAgICAgICAgICAxICAgICAgICAgMiAgICAg"
    ∷ codes "ICAgIDMgICAgICAgICA0ICAgICAgICAgNSAgICAgICAgIDYgICAgICAgICA3ICAgICAg"
    ∷ codes "ICAgOCAgICAgICAgIDkKMCAgICAgICAgMDEyMzQ1Njc4OTAxMjM0NTY3ODkwMTIzNDU2"
    ∷ codes "Nzg5MDEyMzQ1Njc4OTAxMjM0NTY3ODkwMTIzNDU2Nzg5MDEyMzQ1Njc4OTAxMjM0NTY3"
    ∷ codes "ODkwMTIzNDU2Nzg5Ci0tLS0tLS0tLS0tLS0tLS0tLS0tLS0tLS0tLS0tLS0tLS0tLS0t"
    ∷ codes "LS0tLS0tLS0tLS0tLS0tLS0tLS0tLS0tLS0tLS0tLS0tLS0tLS0tLS0tLS0tLS0tLS0t"
    ∷ codes "LQoKICBMaW5lICAxIHwgQUJDREVGR0hJSkFCQ0RFRkdISUpBQkNERUZHSElKQUJDREVG"
    ∷ codes "R0hJSkFCQ0RFRkdISUpBQkNERUZHSElKQUJDREVGR0hJSgogIExpbmUgIDIgfCBBQkNE"
    ∷ codes "RUZHSElKQUJDREVGR0hJSkFCQ0RFRkdISUpBQkNERUZHSElKQUJDREVGR0hJSkFCQ0RF"
    ∷ codes "RkdISUpBQkNERUZHSElKCiAgTGluZSAgMyB8IEFCQ0RFRkdISUpBQkNERUZHSElKQUJD"
    ∷ codes "REVGR0hJSkFCQ0RFRkdISUpBQkNERUZHSElKQUJDREVGR0hJSkFCQ0RFRkdISUoKICBM"
    ∷ codes "aW5lICA0IHwgQUJDREVGR0hJSkFCQ0RFRkdISUpBQkNERUZHSElKQUJDREVGR0hJSkFC"
    ∷ codes "Q0RFRkdISUpBQkNERUZHSElKQUJDREVGR0hJSgogIExpbmUgIDUgfCBBQkNERUZHSElK"
    ∷ codes "QUJDREVGR0hJSkFCQ0RFRkdISUpBQkNERUZHSElKQUJDREVGR0hJSkFCQ0RFRkdISUpB"
    ∷ codes "QkNERUZHSElKCiAgTGluZSAgNiB8IEFCQ0RFRkdISUpBQkNERUZHSElKQUJDREVGR0hJ"
    ∷ codes "SkFCQ0RFRkdISUpBQkNERUZHSElKQUJDREVGR0hJSkFCQ0RFRkdISUoKICBMaW5lICA3"
    ∷ codes "IHwgQUJDREVGR0hJSkFCQ0RFRkdISUpBQkNERUZHSElKQUJDREVGR0hJSkFCQ0RFRkdI"
    ∷ codes "SUpBQkNERUZHSElKQUJDREVGR0hJSgoKRG9uZS4gQ2hlY2sgZm9yIGhvcml6b250YWwg"
    ∷ codes "c2Nyb2xsIG9yIHdyYXBwaW5nLgo="
    ∷ [])
