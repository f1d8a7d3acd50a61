-- ===== src/Demos/Output.antt =====
-- frontend/components/ExecutionConsole.tsx: the programs that print, in base64.
use isolator_v_wasm_sandbox.Common.{Text, codes, [], ◌∷◌}
use isolator_v_wasm_sandbox.Demos.Wasm.{concat}

unfoldable pub hello_wasm_b64 : Text
unfolding concat
hello_wasm_b64 = concat (
    codes "AGFzbQEAAAABEANgBH9/f38Bf2ABfwBgAAACRgIWd2FzaV9zbmFwc2hvdF9wcmV2aWV3MQhmZF93"
    ∷ codes "cml0ZQAAFndhc2lfc25hcHNob3RfcHJldmlldzEJcHJvY19leGl0AAEDAgECBQMBAAEHEwIGbWVt"
    ∷ codes "b3J5AgAGX3N0YXJ0AAIK8QIB7gIAQYAEQQA2AgBBhARBAjYCAEEBQYAEQQFBkAQQABpBgARBAjYC"
    ∷ codes "AEGEBEHqADYCAEEBQYAEQQFBkAQQABpBgARB7AA2AgBBhARBMDYCAEEBQYAEQQFBkAQQABpBgARB"
    ∷ codes "nAE2AgBBhARB6gA2AgBBAUGABEEBQZAEEAAaQYAEQYYCNgIAQYQEQQI2AgBBAUGABEEBQZAEEAAa"
    ∷ codes "QYAEQYgCNgIAQYQEQSg2AgBBAUGABEEBQZAEEAAaQYAEQbACNgIAQYQEQSU2AgBBAUGABEEBQZAE"
    ∷ codes "EAAaQYAEQdUCNgIAQYQEQS82AgBBAUGABEEBQZAEEAAaQYAEQYQDNgIAQYQEQR42AgBBAUGABEEB"
    ∷ codes "QZAEEAAaQYAEQaIDNgIAQYQEQQI2AgBBAUGABEEBQZAEEAAaQYAEQaQDNgIAQYQEQR02AgBBAUGA"
    ∷ codes "BEEBQZAEEAAaQYAEQcEDNgIAQYQEQQI2AgBBAUGABEEBQZAEEAAaQQAQAQsLygMBAEEAC8MDDQog"
    ∷ codes "IOKVreKUgOKUgOKUgOKUgOKUgOKUgOKUgOKUgOKUgOKUgOKUgOKUgOKUgOKUgOKUgOKUgOKUgOKU"
    ∷ codes "gOKUgOKUgOKUgOKUgOKUgOKUgOKUgOKUgOKUgOKUgOKUgOKUgOKUgOKUgOKVrg0KICDilIIgIPCf"
    ∷ codes "n6IgIEhlbGxvIGZyb20gSXNvbGF0b3ItViEgICAgICAgIOKUgg0KICDilbDilIDilIDilIDilIDi"
    ∷ codes "lIDilIDilIDilIDilIDilIDilIDilIDilIDilIDilIDilIDilIDilIDilIDilIDilIDilIDilIDi"
    ∷ codes "lIDilIDilIDilIDilIDilIDilIDilIDilIDila8NCg0KICBydW50aW1lICA6IHdhc210aW1lIDI1"
    ∷ codes "LjAgKENyYW5lbGlmdCkNCiAgQUJJICAgICAgOiBXQVNJIHNuYXBzaG90X3ByZXZpZXcxDQogIHNh"
    ∷ codes "bmRib3ggIDogaXNvbGF0b3ItdiAvIHdhc20td29ya2VyLW1hbmFnZXINCiAgbWVtb3J5ICAgOiAx"
    ∷ codes "IHBhZ2UgKDY0IEtpQikNCg0KICDinJQgIGV4ZWN1dGlvbiBzdWNjZXNzZnVsDQoNCg=="
    ∷ [])

unfoldable pub counter_wasm_b64 : Text
unfolding concat
counter_wasm_b64 = concat (
    codes "AGFzbQEAAAABEANgBH9/f38Bf2ABfwBgAAACRgIWd2FzaV9zbmFwc2hvdF9wcmV2aWV3MQhmZF93"
    ∷ codes "cml0ZQAAFndhc2lfc25hcHNob3RfcHJldmlldzEJcHJvY19leGl0AAEDAgECBQMBAAEHEwIGbWVt"
    ∷ codes "b3J5AgAGX3N0YXJ0AAIKlgUBkwUAQYAEQQA2AgBBhARBGjYCAEEBQYAEQQFBkAQQABpBgARBGjYC"
    ∷ codes "AEGEBEEHNgIAQQFBgARBAUGQBBAAGkGABEEhNgIAQYQEQQc2AgBBAUGABEEBQZAEEAAaQYAEQSg2"
    ∷ codes "AgBBhARBBzYCAEEBQYAEQQFBkAQQABpBgARBLzYCAEGEBEEHNgIAQQFBgARBAUGQBBAAGkGABEE2"
    ∷ codes "NgIAQYQEQQc2AgBBAUGABEEBQZAEEAAaQYAEQT02AgBBhARBBzYCAEEBQYAEQQFBkAQQABpBgARB"
    ∷ codes "xAA2AgBBhARBBzYCAEEBQYAEQQFBkAQQABpBgARBywA2AgBBhARBBzYCAEEBQYAEQQFBkAQQABpB"
    ∷ codes "gARB0gA2AgBBhARBBzYCAEEBQYAEQQFBkAQQABpBgARB2QA2AgBBhARBBzYCAEEBQYAEQQFBkAQQ"
    ∷ codes "ABpBgARB4AA2AgBBhARBBzYCAEEBQYAEQQFBkAQQABpBgARB5wA2AgBBhARBBzYCAEEBQYAEQQFB"
    ∷ codes "kAQQABpBgARB7gA2AgBBhARBBzYCAEEBQYAEQQFBkAQQABpBgARB9QA2AgBBhARBBzYCAEEBQYAE"
    ∷ codes "QQFBkAQQABpBgARB/AA2AgBBhARBBzYCAEEBQYAEQQFBkAQQABpBgARBgwE2AgBBhARBBzYCAEEB"
    ∷ codes "QYAEQQFBkAQQABpBgARBigE2AgBBhARBBzYCAEEBQYAEQQFBkAQQABpBgARBkQE2AgBBhARBBzYC"
    ∷ codes "AEEBQYAEQQFBkAQQABpBgARBmAE2AgBBhARBBzYCAEEBQYAEQQFBkAQQABpBgARBnwE2AgBBhARB"
    ∷ codes "BzYCAEEBQYAEQQFBkAQQABpBgARBpgE2AgBBhARBDDYCAEEBQYAEQQFBkAQQABpBABABCwu5AQEA"
    ∷ codes "QQALsgFDb3VudGluZyBmcm9tIDEgdG8gMjA6DQoNCiAgICAxDQogICAgMg0KICAgIDMNCiAgICA0"
    ∷ codes "DQogICAgNQ0KICAgIDYNCiAgICA3DQogICAgOA0KICAgIDkNCiAgIDEwDQogICAxMQ0KICAgMTIN"
    ∷ codes "CiAgIDEzDQogICAxNA0KICAgMTUNCiAgIDE2DQogICAxNw0KICAgMTgNCiAgIDE5DQogICAyMA0K"
    ∷ codes "DQpEb25lIOKclA0K"
    ∷ [])

unfoldable pub fibonacci_wasm_b64 : Text
unfolding concat
fibonacci_wasm_b64 = concat (
    codes "AGFzbQEAAAABEANgBH9/f38Bf2ABfwBgAAACRgIWd2FzaV9zbmFwc2hvdF9wcmV2aWV3MQhmZF93"
    ∷ codes "cml0ZQAAFndhc2lfc25hcHNob3RfcHJldmlldzEJcHJvY19leGl0AAEDAgECBQMBAAEHEwIGbWVt"
    ∷ codes "b3J5AgAGX3N0YXJ0AAIKmgUBlwUAQYAEQQA2AgBBhARBKDYCAEEBQYAEQQFBkAQQABpBgARBKDYC"
    ∷ codes "AEGEBEETNgIAQQFBgARBAUGQBBAAGkGABEE7NgIAQYQEQRM2AgBBAUGABEEBQZAEEAAaQYAEQc4A"
    ∷ codes "NgIAQYQEQRM2AgBBAUGABEEBQZAEEAAaQYAEQeEANgIAQYQEQRM2AgBBAUGABEEBQZAEEAAaQYAE"
    ∷ codes "QfQANgIAQYQEQRM2AgBBAUGABEEBQZAEEAAaQYAEQYcBNgIAQYQEQRM2AgBBAUGABEEBQZAEEAAa"
    ∷ codes "QYAEQZoBNgIAQYQEQRM2AgBBAUGABEEBQZAEEAAaQYAEQa0BNgIAQYQEQRM2AgBBAUGABEEBQZAE"
    ∷ codes "EAAaQYAEQcABNgIAQYQEQRM2AgBBAUGABEEBQZAEEAAaQYAEQdMBNgIAQYQEQRM2AgBBAUGABEEB"
    ∷ codes "QZAEEAAaQYAEQeYBNgIAQYQEQRM2AgBBAUGABEEBQZAEEAAaQYAEQfkBNgIAQYQEQRM2AgBBAUGA"
    ∷ codes "BEEBQZAEEAAaQYAEQYwCNgIAQYQEQRM2AgBBAUGABEEBQZAEEAAaQYAEQZ8CNgIAQYQEQRM2AgBB"
    ∷ codes "AUGABEEBQZAEEAAaQYAEQbICNgIAQYQEQRM2AgBBAUGABEEBQZAEEAAaQYAEQcUCNgIAQYQEQRM2"
    ∷ codes "AgBBAUGABEEBQZAEEAAaQYAEQdgCNgIAQYQEQRM2AgBBAUGABEEBQZAEEAAaQYAEQesCNgIAQYQE"
    ∷ codes "QRM2AgBBAUGABEEBQZAEEAAaQYAEQf4CNgIAQYQEQRM2AgBBAUGABEEBQZAEEAAaQYAEQZEDNgIA"
    ∷ codes "QYQEQRM2AgBBAUGABEEBQZAEEAAaQYAEQaQDNgIAQYQEQSU2AgBBAUGABEEBQZAEEAAaQQAQAQsL"
    ∷ codes "0AMBAEEAC8kDRmlib25hY2NpIHNlcXVlbmNlIChmaXJzdCAyMCB0ZXJtcyk6DQoNCiAgRiggMSkg"
    ∷ codes "PSAgICAgICAxDQogIEYoIDIpID0gICAgICAgMQ0KICBGKCAzKSA9ICAgICAgIDINCiAgRiggNCkg"
    ∷ codes "PSAgICAgICAzDQogIEYoIDUpID0gICAgICAgNQ0KICBGKCA2KSA9ICAgICAgIDgNCiAgRiggNykg"
    ∷ codes "PSAgICAgIDEzDQogIEYoIDgpID0gICAgICAyMQ0KICBGKCA5KSA9ICAgICAgMzQNCiAgRigxMCkg"
    ∷ codes "PSAgICAgIDU1DQogIEYoMTEpID0gICAgICA4OQ0KICBGKDEyKSA9ICAgICAxNDQNCiAgRigxMykg"
    ∷ codes "PSAgICAgMjMzDQogIEYoMTQpID0gICAgIDM3Nw0KICBGKDE1KSA9ICAgICA2MTANCiAgRigxNikg"
    ∷ codes "PSAgICAgOTg3DQogIEYoMTcpID0gICAgMTU5Nw0KICBGKDE4KSA9ICAgIDI1ODQNCiAgRigxOSkg"
    ∷ codes "PSAgICA0MTgxDQogIEYoMjApID0gICAgNjc2NQ0KDQogIFN1bSBvZiBmaXJzdCAyMCB0ZXJtcyA9"
    ∷ codes "IDE3NzEwDQoNCg=="
    ∷ [])

unfoldable pub primes_wasm_b64 : Text
unfolding concat
primes_wasm_b64 = concat (
    codes "AGFzbQEAAAABEANgBH9/f38Bf2ABfwBgAAACRgIWd2FzaV9zbmFwc2hvdF9wcmV2aWV3MQhmZF93"
    ∷ codes "cml0ZQAAFndhc2lfc25hcHNob3RfcHJldmlldzEJcHJvY19leGl0AAEDAgECBQMBAAEHEwIGbWVt"
    ∷ codes "b3J5AgAGX3N0YXJ0AAIKnQEBmgEAQYAEQQA2AgBBhARBLTYCAEEBQYAEQQFBkAQQABpBgARBLTYC"
    ∷ codes "AEGEBEEqNgIAQQFBgARBAUGQBBAAGkGABEHXADYCAEGEBEEqNgIAQQFBgARBAUGQBBAAGkGABEGB"
    ∷ codes "ATYCAEGEBEEWNgIAQQFBgARBAUGQBBAAGkGABEGXATYCAEGEBEEXNgIAQQFBgARBAUGQBBAAGkEA"
    ∷ codes "EAELC7UBAQBBAAuuAVByaW1lcyB1cCB0byAxMDAgKFNpZXZlIG9mIEVyYXRvc3RoZW5lcyk6DQoN"
    ∷ codes "CiAgIDIgICAzICAgNSAgIDcgIDExICAxMyAgMTcgIDE5ICAyMyAgMjkNCiAgMzEgIDM3ICA0MSIA"
    ∷ codes "NDMgIDQ3ICA1MyAgNTkgIDYxICA2NyAgNzENCiAgNzMgIDc5ICA4MyAgODkgIDk3DQoNCiAgRm91"
    ∷ codes "bmQgMjUgcHJpbWVzDQoNCg=="
    ∷ [])
