-- ===== src/Http/Page.antt =====
-- The text of the page in provisioning_http.c.
use mqtt_field_bridge_app.Base.{◌++◌, Bytes, codes}

-- One text for each line of the source.
unfoldable pub index_html_text : Bytes
index_html_text =
    codes "<!doctype html><html><head><meta charset=\"utf-8\">"
    ++ codes "<title>Field Bridge Settings</title>"
    ++ codes
        "<style>body{font:16px sans-serif;margin:16px}table{border-collapse:collapse;width:100%;margin:6px 0 12px}"
    ++ codes "td,th{border:1px solid #ccc;padding:4px}input{width:100%;box-sizing:border-box}"
    ++ codes
        "select{width:100%;box-sizing:border-box}input[type=checkbox]{width:auto}button{background:#1565c0;color:white;border:0;padding:7px 10px}</style></head>"
    ++ codes
        "<body><h1>Field Bridge Settings</h1><h2>Network</h2><table><tbody id=n></tbody></table>"
    ++ codes
        "<h2>Broker</h2><table><tbody id=c></tbody></table><button onclick=s()>Save Settings</button>"
    ++ codes "<h2>Broker Peers</h2><table><thead><tr>"
    ++ codes
        "<th>#</th><th>On</th><th>Name</th><th>Host</th><th>MQTT</th><th>P2P</th><th></th></tr></thead>"
    ++ codes "<tbody id=p></tbody></table>"
    ++ codes "<script>"
    ++ codes "let C,P,E=['device_ip','gateway','netmask','dns'],"
    ++ codes
        "A=['broker_ip','mqtt_port','fallback_port','p2p_port','topic_prefix'],G=x=>document.getElementById(x);"
    ++ codes
        "async function J(u,o){let r=await fetch(u,o),t=await r.text();if(!r.ok)throw t;try{return JSON.parse(t)}catch(e){return t}}"
    ++ codes "async function L(){C=await J('/config');P=await J('/peers');"
    ++ codes
        "n.innerHTML='<tr><th>Mode</th><td><select id=mode>'+['auto','eth'].map(x=>'<option '+(C.mode==x?'selected':'')+'>'+x+'</option>').join('')+'</select></td></tr>'"
    ++ codes
        "+E.map(f=>'<tr><th>ETH '+f+'</th><td><input id='+f+' value=\"'+(C[f]||'')+'\"></td></tr>').join('')"
    ++ codes
        "+'<tr><th>ETH dhcp</th><td><input id=dhcp_enabled type=checkbox '+(C.dhcp_enabled?'checked':'')+'></td></tr>';"
    ++ codes
        "c.innerHTML=A.map(f=>'<tr><th>'+f+'</th><td><input id='+f+' value=\"'+(C[f]||'')+'\"></td></tr>').join('');"
    ++ codes
        "p.innerHTML=P.map((x,i)=>'<tr><td>'+i+'</td><td><input id=e'+i+' type=checkbox '+(x.enabled?'checked':'')+'></td>"
    ++ codes
        "<td><input id=n'+i+' value=\"'+(x.name||'')+'\"></td><td><input id=h'+i+' value=\"'+(x.host||'')+'\"></td>"
    ++ codes
        "<td><input id=m'+i+' value=\"'+(x.mqtt_port||1883)+'\"></td><td><input id=q'+i+' value=\"'+(x.p2p_port||4884)+'\"></td>"
    ++ codes "<td><button onclick=P'+i+'()>Save</button></td></tr>').join('')}"
    ++ codes
        "async function s(){try{[...E,...A].map(f=>C[f]=G(f).value);C.mode=G('mode').value;C.dhcp_enabled=G('dhcp_enabled').checked?1:0;"
    ++ codes
        "C.mqtt_port=+C.mqtt_port||1883;C.fallback_port=+C.fallback_port||1884;C.p2p_port=+C.p2p_port||4884;"
    ++ codes
        "await J('/config',{method:'POST',body:JSON.stringify(C)});alert('Save success');L()}catch(e){alert('Save failed')}}"
    ++ codes
        "async function P0(){return V(0)}async function P1(){return V(1)}async function V(i){try{let x={enabled:G('e'+i).checked?1:0,"
    ++ codes
        "name:G('n'+i).value,host:G('h'+i).value,mqtt_port:+G('m'+i).value||1883,p2p_port:+G('q'+i).value||4884};"
    ++ codes
        "await J('/peers/'+i,{method:'POST',body:JSON.stringify(x)});alert('Save success');L()}catch(e){alert('Save failed')}}L()</script></body></html>"
