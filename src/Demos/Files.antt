-- ===== src/Demos/Files.antt =====
-- frontend/components/ExecutionConsole.tsx: the programs that write a file, in base64.
use isolator_v_wasm_sandbox.Common.{Text, codes, [], ◌∷◌}
use isolator_v_wasm_sandbox.Demos.Wasm.{concat}

unfoldable pub files_wasm_b64 : Text
unfolding concat
files_wasm_b64 = concat (
    codes "AGFzbQEAAAABIgVgCX9/f39/fn5/fwF/YAR/f39/AX9gAX8Bf2ABfwBgAAACiwEEFndhc2lfc25h"
    ∷ codes "cHNob3RfcHJldmlldzEJcGF0aF9vcGVuAAAWd2FzaV9zbmFwc2hvdF9wcmV2aWV3MQhmZF93cml0"
    ∷ codes "ZQABFndhc2lfc25hcHNob3RfcHJldmlldzEIZmRfY2xvc2UAAhZ3YXNpX3NuYXBzaG90X3ByZXZp"
    ∷ codes "ZXcxCXByb2NfZXhpdAADAwIBBAUDAQABBxMCBm1lbW9yeQIABl9zdGFydAAECpoBAZcBAEEAQRA2"
    ∷ codes "AgBBAEGdATYCBEEBQQBBAUEIEAEaQQNBAEGtAUEVQQlCf0J/QQBBDBAAGkEAQcIBNgIAQQBBwAA2"
    ∷ codes "AgRBDCgCAEEAQQFBCBABGkEMKAIAEAIaQQNBAEGCAkEWQQlCf0J/QQBBDBAAGkEAQZgCNgIAQQBB"
    ∷ codes "LjYCBEEMKAIAQQBBAUEIEAEaQQwoAgAQAhpBABADCwu9AgEAQRALtgJWRlMgRmlsZSBPdXRwdXQg"
    ∷ codes "RGVtbw0KPT09PT09PT09PT09PT09PT09PT0NCiAgV3JpdGluZyAvd29ya3NwYWNlL291dHB1dC50"
    ∷ codes "eHQgLi4uDQogIFdyaXRpbmcgL3dvcmtzcGFjZS9yZXBvcnQuanNvbiAuLi4NCkZpbGVzIHdyaXR0"
    ∷ codes "ZW4uIENoZWNrIHRoZSBsZWZ0IHBhbmVsLg0KL3dvcmtzcGFjZS9vdXRwdXQudHh0V3JpdHRlbiBi"
    ∷ codes "eSBJc29sYXRvci1WIFdBU00gc2FuZGJveC4KRmlsZTogL3dvcmtzcGFjZS9vdXRwdXQudHh0Ci93"
    ∷ codes "b3Jrc3BhY2UvcmVwb3J0Lmpzb257ImRlbW8iOiJ2ZnMiLCJzdGF0dXMiOiJvayIsImZpbGVzX3dy"
    ∷ codes "aXR0ZW4iOjJ9"
    ∷ [])

unfoldable pub csv_wasm_b64 : Text
unfolding concat
csv_wasm_b64 = concat (
    codes "AGFzbQEAAAABIgVgCX9/f39/fn5/fwF/YAR/f39/AX9gAX8Bf2ABfwBgAAACiwEEFndh"
    ∷ codes "c2lfc25hcHNob3RfcHJldmlldzEJcGF0aF9vcGVuAAAWd2FzaV9zbmFwc2hvdF9wcmV2"
    ∷ codes "aWV3MQhmZF93cml0ZQABFndhc2lfc25hcHNob3RfcHJldmlldzEIZmRfY2xvc2UAAhZ3"
    ∷ codes "YXNpX3NuYXBzaG90X3ByZXZpZXcxCXByb2NfZXhpdAADAwIBBAUDAQABBxMCBm1lbW9y"
    ∷ codes "eQIABl9zdGFydAAECl4BXABBAEEQNgIAQQRB9wA2AgBBAUEAQQFBCBABGkEDQQBBhwFB"
    ∷ codes "FEEJQn9Cf0EAQQwQABpBAEGbATYCAEEEQb0HNgIAQQwoAgBBAEEBQQgQARpBDCgCABAC"
    ∷ codes "GkEAEAMLC88IAQBBEAvICENTViBGaWxlIERlbW8KPT09PT09PT09PT09PQogIFdyaXRp"
    ∷ codes "bmcgL3dvcmtzcGFjZS9zYWxlcy5jc3YgLi4uCiAgUHJldmlldyBpdCBpbiB0aGUgbGVm"
    ∷ codes "dCBwYW5lbCB1c2luZyB0aGUgRGF0YUdyaWQgdmlldy4KL3dvcmtzcGFjZS9zYWxlcy5j"
    ∷ codes "c3Ztb250aCxyZWdpb24scmV2ZW51ZSx1bml0cwpKYW4sTm9ydGgsOTM4MTAsMTA3Ckph"
    ∷ codes "bixTb3V0aCwxMzI3OCw0MjkKSmFuLEVhc3QsNDYwNDgsMTc1CkphbixXZXN0LDM5MjU2"
    ∷ codes "LDEyMQpGZWIsTm9ydGgsMjM0MzQsMzk2CkZlYixTb3V0aCw4MTQ4Miw5NApGZWIsRWFz"
    ∷ codes "dCw4NzM5NywyNjYKRmViLFdlc3QsMTQxNjUsNjUKTWFyLE5vcnRoLDIyMjgwLDE2MQpN"
    ∷ codes "YXIsU291dGgsNDA0OTUsMzA4Ck1hcixFYXN0LDg4OTA3LDYzCk1hcixXZXN0LDgzNTYz"
    ∷ codes "LDE1MQpBcHIsTm9ydGgsOTUxODEsNDA5CkFwcixTb3V0aCw4MTQyNiwyNjQKQXByLEVh"
    ∷ codes "c3QsMzg4OTMsMjc5CkFwcixXZXN0LDg3MjM2LDE5MgpNYXksTm9ydGgsMTA4NTEsNDM4"
    ∷ codes "Ck1heSxTb3V0aCwzMDkyNiw0MDcKTWF5LEVhc3QsNjUzOTIsMjI0Ck1heSxXZXN0LDQ2"
    ∷ codes "NDIxLDEyOQpKdW4sTm9ydGgsMzgyMjEsNDQwCkp1bixTb3V0aCw1NDExOCwxMDIKSnVu"
    ∷ codes "LEVhc3QsMjIxNTYsMjQ0Ckp1bixXZXN0LDIyNjc2LDIzMwpKdWwsTm9ydGgsNTUwODIs"
    ∷ codes "MzU5Ckp1bCxTb3V0aCw0NDY3MSw0NjMKSnVsLEVhc3QsMTU2OTUsNDIzCkp1bCxXZXN0"
    ∷ codes "LDcwMjE3LDMyNApBdWcsTm9ydGgsMjYzNjEsMjQzCkF1ZyxTb3V0aCwyMDMyOCwzMzIK"
    ∷ codes "QXVnLEVhc3QsNDg0MjcsNDc0CkF1ZyxXZXN0LDkyMzk3LDM2NgpTZXAsTm9ydGgsNTc0"
    ∷ codes "MDAsMzQ1ClNlcCxTb3V0aCwzNTIwMyw0MTAKU2VwLEVhc3QsMTkxMTYsNzMKU2VwLFdl"
    ∷ codes "c3QsOTY2NzMsMTY2Ck9jdCxOb3J0aCw0NzkzMCw5MApPY3QsU291dGgsNDA1MTIsNDkz"
    ∷ codes "Ck9jdCxFYXN0LDIzMjM4LDI0NApPY3QsV2VzdCw0NjQzNCwyODIKTm92LE5vcnRoLDkz"
    ∷ codes "MzIwLDQ3NwpOb3YsU291dGgsNTc4MTksMTMzCk5vdixFYXN0LDU4NTIwLDIzMQpOb3Ys"
    ∷ codes "V2VzdCwzNzQ2MCwzOTMKRGVjLE5vcnRoLDQ0OTkzLDQwOQpEZWMsU291dGgsOTQ5Mzks"
    ∷ codes "ODYKRGVjLEVhc3QsODk4NDAsMzc1CkRlYyxXZXN0LDMyNDMxLDMyMwo="
    ∷ [])

unfoldable pub chart_wasm_b64 : Text
unfolding concat
chart_wasm_b64 = concat (
    codes "AGFzbQEAAAABIgVgCX9/f39/fn5/fwF/YAR/f39/AX9gAX8Bf2ABfwBgAAACiwEEFndh"
    ∷ codes "c2lfc25hcHNob3RfcHJldmlldzEJcGF0aF9vcGVuAAAWd2FzaV9zbmFwc2hvdF9wcmV2"
    ∷ codes "aWV3MQhmZF93cml0ZQABFndhc2lfc25hcHNob3RfcHJldmlldzEIZmRfY2xvc2UAAhZ3"
    ∷ codes "YXNpX3NuYXBzaG90X3ByZXZpZXcxCXByb2NfZXhpdAADAwIBBAUDAQABBxMCBm1lbW9y"
    ∷ codes "eQIABl9zdGFydAAECl4BXABBAEEQNgIAQQRB+gA2AgBBAUEAQQFBCBABGkEDQQBBigFB"
    ∷ codes "F0EJQn9Cf0EAQQwQABpBAEGhATYCAEEEQbQCNgIAQQwoAgBBAEEBQQgQARpBDCgCABAC"
    ∷ codes "GkEAEAMLC8wDAQBBEAvFA0pTT04gQ2hhcnQgRGVtbwo9PT09PT09PT09PT09PT0KICBX"
    ∷ codes "cml0aW5nIC93b3Jrc3BhY2UvbWV0cmljcy5qc29uIC4uLgogIFByZXZpZXcgaXQgaW4g"
    ∷ codes "dGhlIGxlZnQgcGFuZWwgdXNpbmcgdGhlIENoYXJ0Vmlldy4KL3dvcmtzcGFjZS9tZXRy"
    ∷ codes "aWNzLmpzb257InR5cGUiOiJ0aW1lc2VyaWVzIiwibGFiZWxzIjpbIkphbiIsIkZlYiIs"
    ∷ codes "Ik1hciIsIkFwciIsIk1heSIsIkp1biIsIkp1bCIsIkF1ZyIsIlNlcCIsIk9jdCIsIk5v"
    ∷ codes "diIsIkRlYyJdLCJzZXJpZXMiOlt7Im5hbWUiOiJSZXF1ZXN0cyIsImRhdGEiOlsxMjAs"
    ∷ codes "MTQ1LDEzMiwxNzgsMjAxLDE4OSwyMTUsMTk4LDIzMCwyNDUsMjIwLDI2MF19LHsibmFt"
    ∷ codes "ZSI6IkVycm9ycyIsImRhdGEiOls1LDgsMywxMiw3LDQsOSw2LDExLDgsNSw3XX0seyJu"
    ∷ codes "YW1lIjoiUDk1IG1zIiwiZGF0YSI6WzQyLDM4LDQ1LDUxLDQ4LDQ0LDUyLDQ3LDU1LDQ5"
    ∷ codes "LDQzLDU4XX1dfQ=="
    ∷ [])

unfoldable pub markdown_wasm_b64 : Text
unfolding concat
markdown_wasm_b64 = concat (
    codes "AGFzbQEAAAABIgVgCX9/f39/fn5/fwF/YAR/f39/AX9gAX8Bf2ABfwBgAAACiwEEFndhc2lfc25hcHNo"
    ∷ codes "b3RfcHJldmlldzEJcGF0aF9vcGVuAAAWd2FzaV9zbmFwc2hvdF9wcmV2aWV3MQhmZF93cml0ZQABFndh"
    ∷ codes "c2lfc25hcHNob3RfcHJldmlldzEIZmRfY2xvc2UAAhZ3YXNpX3NuYXBzaG90X3ByZXZpZXcxCXByb2Nf"
    ∷ codes "ZXhpdAADAwIBBAUDAQABBxMCBm1lbW9yeQIABl9zdGFydAAECl4BXABBAEEQNgIAQQRB7wA2AgBBAUEA"
    ∷ codes "QQFBCBABGkEDQQBB/wBBFEEJQn9Cf0EAQQwQABpBAEGTATYCAEEEQfkINgIAQQwoAgBBAEEBQQgQARpB"
    ∷ codes "DCgCABACGkEAEAMLC4MKAQBBEAv8CU1hcmtkb3duIFByZXZpZXcgRGVtbwo9PT09PT09PT09PT09PT09"
    ∷ codes "PT09PT0KICBXcml0aW5nIC93b3Jrc3BhY2UvcmVhZG1lLm1kIC4uLgogIFByZXZpZXcgaXQgaW4gdGhl"
    ∷ codes "IGxlZnQgcGFuZWwuCi93b3Jrc3BhY2UvcmVhZG1lLm1kIyBJc29sYXRvci1WIFNhbmRib3gKCkEgKipX"
    ∷ codes "ZWJBc3NlbWJseSoqIGV4ZWN1dGlvbiBlbnZpcm9ubWVudCB3aXRoIHJlYWwtdGltZSB0ZWxlbWV0cnku"
    ∷ codes "CgojIyBGZWF0dXJlcwoKLSBJc29sYXRlZCBXQVNNIGV4ZWN1dGlvbiB2aWEgX3dhc210aW1lXyAyNQot"
    ∷ codes "IFZpcnR1YWwgZmlsZXN5c3RlbSAoVkZTKSB3aXRoIGlubGluZSBzbmFwc2hvdCBkZWxpdmVyeQotIFJp"
    ∷ codes "Y2ggZmlsZSBwcmV2aWV3ZXJzOiBDU1YsIEpTT04gY2hhcnRzLCBNYXJrZG93biwgSW1hZ2VzCi0gRGFy"
    ∷ codes "ayAvIGxpZ2h0IG1vZGUgdG9nZ2xlCi0gUmVzaXphYmxlIHBhbmVsIGxheW91dAoKIyMgQ29kZSBFeGFt"
    ∷ codes "cGxlCgpgYGBydXN0CmZuIG1haW4oKSB7CiAgICBwcmludGxuISgiSGVsbG8gZnJvbSBJc29sYXRvci1W"
    ∷ codes "IFdBU00hIik7Cn0KYGBgCgojIyBBcmNoaXRlY3R1cmUKClRoZSBleGVjdXRpb24gcGlwZWxpbmU6Cgog"
    ∷ codes "ICAgQnJvd3NlciDihpIgV2ViU29ja2V0IOKGkiBHbyBPcmNoZXN0cmF0b3Ig4oaSIEhUVFAg4oaSIFJ1"
    ∷ codes "c3Qgd2FzbS13b3JrZXItbWFuYWdlciDihpIgd2FzbXRpbWUKCiMjIFN0YXR1cyBUYWJsZQoKfCBDb21w"
    ∷ codes "b25lbnQgICAgICB8IFN0YXR1cyAgfCBOb3RlcyAgICAgICAgICAgICAgICAgICAgICAgICB8CnwtLS0t"
    ∷ codes "LS0tLS0tLS0tLS0tfC0tLS0tLS0tLXwtLS0tLS0tLS0tLS0tLS0tLS0tLS0tLS0tLS0tLS0tfAp8IE9y"
    ∷ codes "Y2hlc3RyYXRvciAgIHwgUnVubmluZyB8IEdvLCBXZWJTb2NrZXQgKyBIVFRQIEFQSSAgICAgIHwKfCBX"
    ∷ codes "QVNNIFdvcmtlciAgICB8IFJ1bm5pbmcgfCBSdXN0ICsgd2FzbXRpbWUgMjUuMCAgICAgICAgICB8Cnwg"
    ∷ codes "VkZTIFNuYXBzaG90ICAgfCBJbmxpbmUgIHwgQmFzZTY0IGluIFdTIGV4aXQgZnJhbWUgICAgICAgfAp8"
    ∷ codes "IFByZXZpZXdlciAgICAgIHwgQWN0aXZlICB8IFRoaXMgZmlsZSEgICAgICAgICAgICAgICAgICAgIHwK"
    ∷ codes "CiMjIEJsb2NrcXVvdGUKCj4gKipOb3RlOioqIFRoaXMgZmlsZSB3YXMgd3JpdHRlbiBieSBhIGhhbmQt"
    ∷ codes "YXNzZW1ibGVkIFdBU00gYmluYXJ5Cj4gYW5kIGRlbGl2ZXJlZCBpbmxpbmUgdmlhIHRoZSBXZWJTb2Nr"
    ∷ codes "ZXQgZXhpdCBmcmFtZSDigJQgbm8gZGF0YWJhc2UgcmVxdWlyZWQuCgotLS0KCl9Jc29sYXRvci1WIOKA"
    ∷ codes "lCBleGVjdXRpb24gc2FuZGJveCByZXNlYXJjaCBwcmV2aWV3Xwo="
    ∷ [])
